-- ===== src/Kiosks/Onboarding/Gate.antt =====
-- The gate that guards LIVE, and what a machine may do to the door of its shop.
use printvendo_backend.Prelude.{
  Bool-cases, all, ℕ, String, ◌≡◌, refl, ap, ◌∙◌, ◌⊎◌, inl, inr, Bool, true, false, ◌||◌, Option,
  none, List, [], ◌∷◌, arith,
}
use printvendo_backend.Kiosks.Models.{
  OnboardingStage, configured, live, maintenance, suspended_billing, retired, Kiosk, same_stage,
}
use printvendo_backend.Kiosks.Onboarding.{
  BillingCheck, requires_owner_billing, move_to, reconcile_billing_state, Door, report_stuck,
  report_recovered, Occasion, moves, reconciles, jams, recovers, occur, run_door,
}

abbrev pub is_live : Door → Bool
is_live d = same_stage d.kiosk.onboarding_stage live

-- The stages that a kiosk may go LIVE from.
abbrev pub is_installed : OnboardingStage → Bool
is_installed configured = true
is_installed maintenance = true
is_installed suspended_billing = true
is_installed _ = false

-- Who vouches for a kiosk that has just gone LIVE.
abbrev pub Vouched : BillingCheck → Kiosk → Type 0
Vouched b k = (requires_owner_billing k ≡ false) ⊎ (b.owner_can_collect k ≡ true)

moves-Vouched :
    (b : BillingCheck) (target : OnboardingStage) (text : Option String) (d : Door)
    → is_live (occur b (moves target text) d) ≡ true
    → (is_live d ≡ true) ⊎ (is_installed d.kiosk.onboarding_stage ≡ true) × Vouched b d.kiosk
unfolding occur move_to
moves-Vouched b target text d h = ground arith

reconciles-Vouched :
    (b : BillingCheck) (d : Door)
    → is_live (occur b reconciles d) ≡ true
    → (is_live d ≡ true) ⊎ (is_installed d.kiosk.onboarding_stage ≡ true) × Vouched b d.kiosk
unfolding occur reconcile_billing_state
reconciles-Vouched b d h = ground arith

jams-closes :
    (b : BillingCheck) (now : ℕ) (d : Door)
    → is_live (occur b (jams now) d) ≡ true
    → is_live d ≡ true
unfolding occur report_stuck move_to
jams-closes b now d h = ground arith

recovers-Vouched :
    (b : BillingCheck) (d : Door)
    → is_live (occur b recovers d) ≡ true
    → (is_live d ≡ true) ⊎ (is_installed d.kiosk.onboarding_stage ≡ true) × Vouched b d.kiosk
unfolding occur report_recovered move_to
recovers-Vouched b d h = ground arith

-- Whatever happens to a kiosk, when it is LIVE afterwards and was not before, then it was
-- configured, in maintenance or suspended, and either the platform collects there or its owner could
-- collect at that moment.
pub occur-Vouched :
    (b : BillingCheck) (o : Occasion) (d : Door)
    → is_live (occur b o d) ≡ true
    → (is_live d ≡ true) ⊎ (is_installed d.kiosk.onboarding_stage ≡ true) × Vouched b d.kiosk
occur-Vouched b (moves target text) d h = moves-Vouched b target text d h
occur-Vouched b reconciles d h = reconciles-Vouched b d h
occur-Vouched b (jams now) d h = inl (jams-closes b now d h)
occur-Vouched b recovers d h = recovers-Vouched b d h

-- A kiosk whose billing has just been looked at sells to students, or can still be opened by a
-- person from maintenance, only where the platform collects or its owner can.
pub reconcile-Vouched :
    (b : BillingCheck) (k : Kiosk)
    → let stage = (reconcile_billing_state b k).onboarding_stage in
      (same_stage stage live || same_stage stage maintenance) ≡ true → Vouched b k
unfolding reconcile_billing_state
reconcile-Vouched b k h = ground arith

occur_retired :
    (b : BillingCheck) (o : Occasion) (d : Door)
    → d.kiosk.onboarding_stage ≡ retired
    → (occur b o d).kiosk ≡ d.kiosk
unfolding occur move_to reconcile_billing_state report_stuck report_recovered
occur_retired b (moves target text) d h = ground arith
occur_retired b reconciles d h = ground arith
occur_retired b (jams now) d h = ground arith
occur_retired b recovers d h = ground arith

-- A kiosk that is retired stays just as it is through any requests to move it to another stage, looks
-- at its billing, jams and recoveries of its machine, in any order and however its billing goes.
pub run_door_retired :
    (os : List (BillingCheck × Occasion)) (d : Door)
    → d.kiosk.onboarding_stage ≡ retired
    → (run_door os d).kiosk ≡ d.kiosk
unfolding run_door
run_door_retired [] d h = refl
run_door_retired ((b, o) ∷ os) d h =
    let here = occur_retired b o d h in
    run_door_retired os (occur b o d) (ap (λ k. k.onboarding_stage) here ∙ h) ∙ here

-- What the machine says by itself.
abbrev pub is_report : BillingCheck × Occasion → Bool
is_report (b, jams now) = true
is_report (b, recovers) = true
is_report _ = false

report_closed :
    (b : BillingCheck) (o : Occasion) (d : Door)
    → is_report (b, o) ≡ true
    → d.stuck_since ≡ none
    → is_live d ≡ false
    → occur b o d ≡ d
unfolding occur report_stuck report_recovered
report_closed b (moves target text) d r n h = cc
report_closed b reconciles d r n h = cc
report_closed b (jams now) d r n h = ground arith
report_closed b recovers d r n h = ground arith

-- A machine that has not closed its shop never opens it: while `stuck_since` is not set and the
-- kiosk is not LIVE, whatever the machine reports, jams and recoveries in any order, leaves the
-- kiosk and the mark as they are.
pub reports_leave_closed :
    (os : List (BillingCheck × Occasion)) (d : Door)
    → all is_report os ≡ true
    → d.stuck_since ≡ none
    → is_live d ≡ false
    → run_door os d ≡ d
unfolding run_door
reports_leave_closed [] d r n h = refl
reports_leave_closed ((b, o) ∷ os) d r n h = elim (Bool-cases (is_report (b, o))) [
  | inr other ↦ cc (rw other at r)
  | inl machine ↦
      let here = report_closed b o d machine n h in
      rw here (reports_leave_closed os d (rw machine at r) n h)
]
