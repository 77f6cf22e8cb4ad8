-- ===== src/Kiosks/Pricing/Examples.antt =====
-- Tests and instances of the theorems on prices.
use printvendo_backend.Prelude.{
  pos, ◌*ℤ◌, double_above_two, Error, bad_request, ok, err, ◌≡◌, refl, ◌⊎◌, true, none, some,
}
use printvendo_backend.Money.{as_money}
use printvendo_backend.Kiosks.Models.{platform, live, Kiosk}
use printvendo_backend.Kiosks.Pricing.{
  platform_band, effective_prices, read_pricing, Asked, set_pricing,
}
use printvendo_backend.Kiosks.Pricing.Fair.{IsFair, set_pricing-IsFair}

abbrev plain_kiosk : Kiosk
plain_kiosk = record {
  id = 7;
  public_id = "ksk_7";
  kiosk_type = platform;
  onboarding_stage = live;
  onboarding_note = none;
  is_active = true;
  accepts_wallet = true;
  price_bw_single = none;
  price_bw_double = none;
  price_color_single = none;
  price_color_double = none;
}

-- One rupee a side, with the default of three rupees for both sides.
abbrev one_rupee : Asked
one_rupee = record {
  bw_single = some (record { coefficient = pos 1; places = 0 });
  bw_double = none;
  color_single = none;
  color_double = none;
}

set_one_rupee :
    (set_pricing platform_band one_rupee plain_kiosk).0 ≡ err (bad_request double_above_two)
unfolding set_pricing as_money ◌*ℤ◌
set_one_rupee = refl

abbrev two_fifty : Asked
two_fifty = record one_rupee { bw_single = some (record { coefficient = pos 25; places = 1 }) }

set_pricing-IsFair_example :
    let (answer, k') = set_pricing platform_band two_fifty plain_kiosk in
    ((e : Error) × (answer ≡ err e) × (k' ≡ plain_kiosk))
    ⊎ (IsFair (effective_prices k') × (answer ≡ ok (read_pricing platform_band k')))
set_pricing-IsFair_example = set_pricing-IsFair platform_band two_fifty plain_kiosk
