-- ===== src/Kiosks/Onboarding.antt =====
-- app/modules/kiosks/onboarding.py, and the stuck printer of app/modules/kiosks/commands.py: the
-- stages of one kiosk. Whether its owner can collect is answered outside, at the time of asking.
pub mod Gate
mod Examples
use printvendo_backend.Prelude.{
  if◌then◌else◌, is_some, no_such_move, not_connected, bad_request, conflict, Result, ok, err, Exec,
  pure, transaction, continue, ℕ, String, Bool, true, false, not, ◌&&◌, ◌||◌, Option, none, some,
  List, [], ◌∷◌,
}
use printvendo_backend.Kiosks.Models.{
  KioskType, platform, sold, saas, OnboardingStage, live, maintenance, suspended_billing, Kiosk,
  can_transition, same_stage,
}

-- `BillingCheck`
pub record BillingCheck : Type 0 where
  pub owner_can_collect : Kiosk → Bool

-- `PlatformOnlyBilling`
abbrev pub platform_only : BillingCheck
platform_only = record { owner_can_collect = λ kiosk. false }

-- OWNER_GATEWAY_TYPES
abbrev pub owner_collects : KioskType → Bool
owner_collects platform = false
owner_collects sold = true
owner_collects saas = true

-- `_requires_owner_billing`
abbrev pub requires_owner_billing : Kiosk → Bool
requires_owner_billing kiosk = owner_collects kiosk.kiosk_type

abbrev pub noted : Option String → Option String → Option String
noted none old = old
noted (some note) old = some note

-- Whether LIVE is asked for where nobody could collect.
abbrev pub cannot_collect : BillingCheck → OnboardingStage → Kiosk → Bool
cannot_collect billing target kiosk =
    same_stage target live && requires_owner_billing kiosk && not (billing.owner_can_collect kiosk)

unfoldable pub move_to : BillingCheck → OnboardingStage → Option String → Exec Kiosk (Unit {0})
move_to billing target note kiosk =
    if same_stage kiosk.onboarding_stage target
    then (ok tt, kiosk)
    else if not (can_transition kiosk.onboarding_stage target)
    then (err (conflict no_such_move), kiosk)
    else if cannot_collect billing target kiosk
    then (err (bad_request not_connected), kiosk)
    else (
      ok tt,
      record kiosk {
        onboarding_stage = target;
        onboarding_note = noted note kiosk.onboarding_note;
      },
    )

abbrev pub suspension_note : String
suspension_note =
    "Suspended automatically: this kiosk's owner cannot currently collect payments. It will return to service once their subscription and Razorpay keys are active again."

unfoldable pub reconcile_billing_state : BillingCheck → Kiosk → Kiosk
reconcile_billing_state billing kiosk =
    let stage = kiosk.onboarding_stage in
    let can_collect = billing.owner_can_collect kiosk in
    if not (requires_owner_billing kiosk)
    then kiosk
    else if not can_collect && (same_stage stage live || same_stage stage maintenance)
    then record kiosk {
      onboarding_stage = suspended_billing;
      onboarding_note = some suspension_note;
    }
    else if can_collect && same_stage stage suspended_billing
    then record kiosk { onboarding_stage = live; onboarding_note = none }
    else kiosk

abbrev pub is_selling : Kiosk → Bool
is_selling kiosk = kiosk.is_active && same_stage kiosk.onboarding_stage live

-- `platform_kiosks_skip_configuration`
abbrev pub platform_kiosks_skip_configuration : Kiosk → Bool
platform_kiosks_skip_configuration kiosk = not (owner_collects kiosk.kiosk_type)

-- A kiosk and the `stuck_since` of its device.
pub record Door : Type 0 where
  pub kiosk : Kiosk
  pub stuck_since : Option ℕ

abbrev stuck_note : String
stuck_note =
    "Closed automatically: the machine at this kiosk could not finish a print job. It will reopen on its own once printing works again."

-- `move_to` on the kiosk behind a door, as a savepoint-free call: what it raises goes up.
abbrev pub moved_door : Result (Unit {0}) × Kiosk → Option ℕ → Result (Unit {0}) × Door
moved_door (r, kiosk) stuck = (r, record { kiosk = kiosk; stuck_since = stuck })

unfoldable pub report_stuck : BillingCheck → ℕ → Exec Door Bool
unfolding move_to
report_stuck billing now d =
    if is_some d.stuck_since
    then (ok false, d)
    else if not (same_stage d.kiosk.onboarding_stage live)
    then (ok false, d)
    else continue (moved_door (move_to billing maintenance (some stuck_note) d.kiosk) (some now))
        (λ _. pure true)

abbrev pub clear_note : Exec Door Bool
clear_note d = (ok true, record d { kiosk = record d.kiosk { onboarding_note = none } })

unfoldable pub report_recovered : BillingCheck → Exec Door Bool
unfolding move_to
report_recovered billing d =
    if not (is_some d.stuck_since)
    then (ok false, d)
    else if not (same_stage d.kiosk.onboarding_stage maintenance)
    then (ok false, record d { stuck_since = none })
    else continue (moved_door (move_to billing live none d.kiosk) none) (λ _. clear_note)

-- What may happen to a kiosk: a person moves it, its owner's billing is looked at again, its
-- machine reports. Each is a transaction, with the billing of that moment.
pub data Occasion : Type 0 where
  moves : OnboardingStage → Option String → Occasion
  reconciles : Occasion
  jams : ℕ → Occasion
  recovers : Occasion

abbrev on_kiosk : Exec Kiosk (Unit {0}) → Exec Door Bool
on_kiosk m d = continue (moved_door (m d.kiosk) d.stuck_since) (λ _. pure true)

unfoldable pub occur : BillingCheck → Occasion → Door → Door
unfolding move_to reconcile_billing_state report_stuck report_recovered
occur billing (moves target note) d = (transaction (on_kiosk (move_to billing target note)) d).1
occur billing reconciles d = record d { kiosk = reconcile_billing_state billing d.kiosk }
occur billing (jams now) d = (transaction (report_stuck billing now) d).1
occur billing recovers d = (transaction (report_recovered billing) d).1

unfoldable pub run_door : List (BillingCheck × Occasion) → Door → Door
unfolding occur
run_door [] d = d
run_door ((billing, o) ∷ os) d = run_door os (occur billing o d)
