-- ===== src/Kiosks/Onboarding/Examples.antt =====
-- Tests and instances of the theorems on a kiosk's stages.
use printvendo_backend.Prelude.{◌≡◌, refl, ◌⊎◌, true, false, none, List, [], ◌∷◌}
use printvendo_backend.Kiosks.Models.{
  sold, OnboardingStage, configured, live, maintenance, suspended_billing, retired, Kiosk,
}
use printvendo_backend.Kiosks.Onboarding.{
  BillingCheck, move_to, reconcile_billing_state, Door, report_stuck, report_recovered, Occasion,
  moves, jams, recovers, occur, run_door,
}
use printvendo_backend.Kiosks.Onboarding.Gate.{
  is_live, is_installed, Vouched, occur-Vouched, reconcile-Vouched, run_door_retired,
  reports_leave_closed,
}

abbrev shop_at : OnboardingStage → Kiosk
shop_at stage = record {
  id = 7;
  public_id = "ksk_7";
  kiosk_type = sold;
  onboarding_stage = stage;
  onboarding_note = none;
  is_active = true;
  accepts_wallet = false;
  price_bw_single = none;
  price_bw_double = none;
  price_color_single = none;
  price_color_double = none;
}

abbrev door_at : OnboardingStage → Door
door_at stage = record { kiosk = shop_at stage; stuck_since = none }

abbrev paying : BillingCheck
paying = record { owner_can_collect = λ k. true }

-- The machine closes the shop, its owner opens it and closes it again to mend something, and the
-- machine opens it.
abbrev reopened_under_the_owner : List (BillingCheck × Occasion)
reopened_under_the_owner =
    (paying, jams 100)
    ∷ (paying, moves live none)
    ∷ (paying, moves maintenance none)
    ∷ (paying, recovers)
    ∷ []

reopened : is_live (run_door reopened_under_the_owner (door_at live)) ≡ true
unfolding run_door occur move_to report_stuck report_recovered
reopened = refl

occur-Vouched_example :
    (is_live (door_at configured) ≡ true)
    ⊎ (is_installed configured ≡ true) × Vouched paying (shop_at configured)
unfolding occur move_to
occur-Vouched_example = occur-Vouched paying (moves live none) (door_at configured) refl

reconcile-Vouched_example : Vouched paying (shop_at suspended_billing)
unfolding reconcile_billing_state
reconcile-Vouched_example = reconcile-Vouched paying (shop_at suspended_billing) refl

run_door_retired_example :
    (run_door reopened_under_the_owner (door_at retired)).kiosk ≡ shop_at retired
run_door_retired_example = run_door_retired reopened_under_the_owner (door_at retired) refl

reports_leave_closed_example :
    run_door ((paying, jams 100) ∷ (paying, recovers) ∷ []) (door_at maintenance)
    ≡ door_at maintenance
reports_leave_closed_example =
    reports_leave_closed ((paying, jams 100) ∷ (paying, recovers) ∷ []) (door_at maintenance) refl
      refl refl
