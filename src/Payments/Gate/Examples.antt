-- ===== src/Payments/Gate/Examples.antt =====
-- Instances of the gate's theorem.
use printvendo_backend.Prelude.{◌≡◌, true, not, ◌&&◌, ◌||◌, none, some}
use printvendo_backend.Kiosks.Models.{sold, live, Kiosk}
use printvendo_backend.Payments.Gate.{
  Lookups, can_take_payment, wallet_may_be_spent, gate_billing, gate_rules,
}

abbrev ready : Lookups
ready = record {
  owner_of = λ k. some 3;
  has_active_subscription = λ u. true;
  has_usable_keys = λ u. true;
}

abbrev sold_kiosk : Kiosk
sold_kiosk = record {
  id = 7;
  public_id = "ksk_7";
  kiosk_type = sold;
  onboarding_stage = live;
  onboarding_note = none;
  is_active = true;
  accepts_wallet = true;
  price_bw_single = none;
  price_bw_double = none;
  price_color_single = none;
  price_color_double = none;
}

-- A kiosk that was sold takes money through its owner's keys, and no balance.
gate_rules_example :
    (can_take_payment ready sold_kiosk ≡ (not true || (true && true)))
    × ((gate_billing ready).owner_can_collect sold_kiosk ≡ (true && (true && true)))
    × (wallet_may_be_spent ready sold_kiosk ≡ (true && not true))
gate_rules_example = gate_rules ready sold_kiosk
