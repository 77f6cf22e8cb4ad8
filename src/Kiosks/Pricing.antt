-- ===== src/Kiosks/Pricing.antt =====
-- app/modules/kiosks/pricing.py: what a page costs at a kiosk, and the band it must lie in.
-- The keywords of `set_pricing` are the four prices, so none is unknown; the first that is refused,
-- in the order of PRICE_FIELDS, gives the error. The band comes from outside, as `BandSource`.
pub mod Fair
mod Examples
use printvendo_backend.Prelude.{
  if◌then◌else◌, is_some, get_or, pos, ◌*ℤ◌, ltb_ℤ, price_negative, price_too_low, price_too_high,
  no_price_given, double_below_single, double_above_two, bad_request, Result, ok, err, Exec, lift,
  ◌>>=◌, Bool, false, not, ◌&&◌, Option, none, some,
}
use printvendo_backend.Money.{Decimal, Money, as_money}
use printvendo_backend.Kiosks.Models.{Kiosk}

pub record Prices : Type 0 where
  pub bw_single : Money
  pub bw_double : Money
  pub color_single : Money
  pub color_double : Money

pub record PriceBand : Type 0 where
  pub floor_bw : Option Money
  pub ceiling_bw : Option Money
  pub floor_color : Option Money
  pub ceiling_color : Option Money

pub record BandSource : Type 0 where
  pub band_for : Kiosk → PriceBand

-- UNBOUNDED, which `PlatformBand` answers
abbrev pub unbounded : PriceBand
unbounded = record { floor_bw = none; ceiling_bw = none; floor_color = none; ceiling_color = none }

abbrev pub platform_band : BandSource
platform_band = record { band_for = λ kiosk. unbounded }

-- DEFAULT_PRICES
abbrev pub default_prices : Prices
default_prices = record {
  bw_single = pos 200;
  bw_double = pos 300;
  color_single = pos 1000;
  color_double = pos 2000;
}

-- The columns are rounded when they are written, so reading rounds nothing.
unfoldable pub effective_prices : Kiosk → Prices
effective_prices kiosk = record {
  bw_single = get_or kiosk.price_bw_single default_prices.bw_single;
  bw_double = get_or kiosk.price_bw_double default_prices.bw_double;
  color_single = get_or kiosk.price_color_single default_prices.color_single;
  color_double = get_or kiosk.price_color_double default_prices.color_double;
}

-- `read_pricing`
pub record Pricing : Type 0 where
  pub prices : Prices
  pub band : PriceBand

unfoldable pub read_pricing : BandSource → Kiosk → Pricing
unfolding effective_prices
read_pricing bands kiosk = record { prices = effective_prices kiosk; band = bands.band_for kiosk }

abbrev below_floor : Option Money → Money → Bool
below_floor none value = false
below_floor (some floor) value = ltb_ℤ value floor

abbrev above_ceiling : Option Money → Money → Bool
above_ceiling none value = false
above_ceiling (some ceiling) value = ltb_ℤ ceiling value

-- `_check_within_band`, for a field with these bounds.
abbrev pub check_within_band : Option Money → Option Money → Money → Result Money
check_within_band floor ceiling value =
    if ltb_ℤ value (pos 0)
    then err (bad_request price_negative)
    else if below_floor floor value
    then err (bad_request price_too_low)
    else if above_ceiling ceiling value
    then err (bad_request price_too_high)
    else ok value

-- The prices of a request.
pub record Asked : Type 0 where
  pub bw_single : Option Decimal
  pub bw_double : Option Decimal
  pub color_single : Option Decimal
  pub color_double : Option Decimal

abbrev nothing_asked : Asked → Bool
nothing_asked a =
    not (is_some a.bw_single)
    && not (is_some a.bw_double)
    && not (is_some a.color_single)
    && not (is_some a.color_double)

-- One price of the loop over the supplied ones: what is normalised, if it is supplied.
unfoldable pub normalise : Option Money → Option Money → Option Decimal → Result (Option Money)
unfolding as_money
normalise floor ceiling none = ok none
normalise floor ceiling (some value) = elim (check_within_band floor ceiling (as_money value)) [
  | err e ↦ err e
  | ok money ↦ ok (some money)
]

-- The double-sided price of a sheet against the single-sided one.
unfoldable pub check_pair : Money → Money → Result (Unit {0})
check_pair one_side both_sides =
    if ltb_ℤ both_sides one_side
    then err (bad_request double_below_single)
    else if ltb_ℤ (one_side *ℤ pos 2) both_sides
    then err (bad_request double_above_two)
    else ok tt

abbrev kept_or : Option Money → Option Money → Option Money
kept_or none old = old
kept_or (some money) _ = some money

-- The kiosk with the normalised prices written.
abbrev pub priced : Kiosk → Option Money → Option Money → Option Money → Option Money → Kiosk
priced kiosk bs bd cs cd = record kiosk {
  price_bw_single = kept_or bs kiosk.price_bw_single;
  price_bw_double = kept_or bd kiosk.price_bw_double;
  price_color_single = kept_or cs kiosk.price_color_single;
  price_color_double = kept_or cd kiosk.price_color_double;
}

-- The end of `set_pricing`: the combined picture is checked, and the supplied prices are written.
unfoldable pub write_prices :
    BandSource → Option Money → Option Money → Option Money → Option Money → Exec Kiosk Pricing
unfolding check_pair effective_prices read_pricing
write_prices bands bs bd cs cd kiosk =
    let now = effective_prices kiosk in
    (lift (check_pair (get_or bs now.bw_single) (get_or bd now.bw_double)) >>= λ _.
    lift (check_pair (get_or cs now.color_single) (get_or cd now.color_double)) >>= λ _.
    λ k. (ok (read_pricing bands (priced k bs bd cs cd)), priced k bs bd cs cd))
      kiosk

-- The loop over the supplied prices has given these results, one for each field.
unfoldable pub set_normalised :
    BandSource → (bs bd cs cd : Result (Option Money)) → Exec Kiosk Pricing
unfolding write_prices
set_normalised bands bs bd cs cd = lift bs >>= λ bs.
    lift bd >>= λ bd. lift cs >>= λ cs. lift cd >>= λ cd. write_prices bands bs bd cs cd

unfoldable pub set_pricing : BandSource → Asked → Exec Kiosk Pricing
unfolding normalise set_normalised
set_pricing bands asked kiosk =
    if nothing_asked asked
    then (err (bad_request no_price_given), kiosk)
    else let band = bands.band_for kiosk in
      set_normalised bands (normalise band.floor_bw band.ceiling_bw asked.bw_single)
        (normalise band.floor_bw band.ceiling_bw asked.bw_double)
        (normalise band.floor_color band.ceiling_color asked.color_single)
        (normalise band.floor_color band.ceiling_color asked.color_double) kiosk
