-- ===== src/Money.antt =====
-- app/core/money.py: rupees as decimals, rounded half up to two places.
-- A `Decimal` is `coefficient / 10 ^ places`, which is Python's finite decimal; NaN and the
-- infinities, and the 28 digits of the default context, are left out. An amount that `as_money` has
-- rounded is its number of paise, an integer.
pub mod Rounding
use printvendo_backend.Prelude.{
  ℕ, suc, ◌+◌, ◌-◌, ◌*◌, ◌/◌, ◌^◌, max, List, [], ◌∷◌, leb, if◌then◌else◌, ℤ, pos, negsuc, ◌+ℤ◌,
  ◌*ℤ◌, neg,
}

pub record Decimal : Type 0 where
  pub coefficient : ℤ
  pub places : ℕ

-- A number of paise.
abbrev pub Money : Type 0
Money = ℤ

-- A stored amount, `Numeric(10, 2)`, as a decimal.
abbrev pub two_places : Money → Decimal
two_places m = record { coefficient = m; places = 2 }

-- ROUND_HALF_UP of m / d: to the nearest, and a half away from zero.
abbrev pub round_half_up : ℕ → ℕ → ℕ
round_half_up m d = (2 * m + d) / (2 * d)

-- Rounding goes by the magnitude and keeps the sign.
abbrev pub by_magnitude : (ℕ → ℕ) → ℤ → ℤ
by_magnitude f (pos n) = pos (f n)
by_magnitude f (negsuc n) = neg (pos (f (suc n)))

abbrev pub quantize : ℕ → ℕ → ℕ
quantize places m =
    if leb places 2 then m * 10 ^ (2 - places) else round_half_up m (10 ^ (places - 2))

-- `as_money`
unfoldable pub as_money : Decimal → Money
as_money x = by_magnitude (quantize x.places) x.coefficient

-- `to_paise`: `int(as_money(value) * 100)`
unfoldable pub to_paise : Decimal → ℤ
unfolding as_money
to_paise x = as_money x

-- `from_paise`: `as_money(Decimal(paise) / 100)`
unfoldable pub from_paise : ℤ → Money
unfolding as_money
from_paise p = as_money (record { coefficient = p; places = 2 })

-- Decimal addition is exact, at the larger number of places.
abbrev pub add_decimal : Decimal → Decimal → Decimal
add_decimal x y =
    let places = max x.places y.places in
    record {
      coefficient =
          x.coefficient *ℤ pos (10 ^ (places - x.places))
          +ℤ y.coefficient *ℤ pos (10 ^ (places - y.places));
      places = places;
    }

add_all : Decimal → List Decimal → Decimal
add_all total [] = total
add_all total (value ∷ values) = add_all (add_decimal total value) values

-- `sum_money`: summed exactly, and rounded once at the end.
unfoldable pub sum_money : List Decimal → Money
unfolding add_all as_money
sum_money values = as_money (add_all (record { coefficient = pos 0; places = 0 }) values)
