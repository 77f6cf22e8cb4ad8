-- ===== src/Orders/Quotes.antt =====
-- app/modules/orders/quotes.py: what an order costs, decided once.
pub mod Fees
pub mod Duplex
mod Examples
use printvendo_backend.Prelude.{
  if◌then◌else◌, pos, ◌+ℤ◌, ◌*ℤ◌, leb_ℤ, empty_order, bad_request, Result, ok, err, ℕ, ◌^◌, Bool,
  List, [], ◌∷◌, map,
}
use printvendo_backend.Money.{Decimal, Money, two_places, as_money, add_decimal, sum_money}
use printvendo_backend.Printing.Options.Workload.{PrintOptions, Workload, workload}
use printvendo_backend.Kiosks.Pricing.{Prices}

-- FEE_RATE is 2 / 100.
abbrev fee_rate : Money → Decimal
fee_rate subtotal = record { coefficient = subtotal *ℤ pos 2; places = 4 }

-- FEE_CAP_INR
abbrev fee_cap_inr : Decimal
fee_cap_inr = record { coefficient = pos 200; places = 2 }

-- `min` of two decimals, compared at the same number of places.
abbrev min_decimal : Decimal → Decimal → Decimal
min_decimal x y =
    if leb_ℤ (x.coefficient *ℤ pos (10 ^ y.places)) (y.coefficient *ℤ pos (10 ^ x.places))
    then x
    else y

unfoldable pub gateway_fee : Money → Money
unfolding as_money
gateway_fee subtotal = as_money (min_decimal (fee_rate subtotal) fee_cap_inr)

pub record LineQuote : Type 0 where
  pub impressions : ℕ
  pub sheets : ℕ
  pub amount_inr : Money
  pub page_count : ℕ

-- `_rates`: what a sheet costs that is printed on both sides, and on one.
abbrev pub rates : PrintOptions → Prices → Money × Money
rates options prices =
    if options.colour
    then (prices.color_double, prices.color_single)
    else (prices.bw_double, prices.bw_single)

-- What the sheets of a workload cost.
unfoldable pub amount_of : Money → Money → Workload → Money
unfolding as_money
amount_of both_sides one_side load =
    as_money (
      two_places (both_sides *ℤ pos load.sheets_both_sides +ℤ one_side *ℤ pos load.sheets_one_side))

unfoldable pub line_of : PrintOptions → Prices → Workload → LineQuote
unfolding amount_of
line_of options prices load = record {
  impressions = load.impressions;
  sheets = load.sheets;
  amount_inr = amount_of (rates options prices).0 (rates options prices).1 load;
  page_count = load.pages;
}

abbrev quoted : PrintOptions → Prices → Result Workload → Result LineQuote
quoted options prices (err e) = err e
quoted options prices (ok load) = ok (line_of options prices load)

unfoldable pub quote_line : PrintOptions → ℕ → Prices → Result LineQuote
unfolding workload line_of
quote_line options total_pages prices = quoted options prices (workload options total_pages)

pub record OrderQuote : Type 0 where
  pub lines : List LineQuote
  pub subtotal_inr : Money
  pub fee_inr : Money
  pub total_inr : Money

abbrev pub amounts : List LineQuote → List Decimal
amounts lines = map (λ line. two_places line.amount_inr) lines

abbrev fee_of : Bool → Money → Money
unfolding gateway_fee
fee_of pays_by_wallet subtotal = if pays_by_wallet then pos 0 else gateway_fee subtotal

-- The quote of lines that come to `subtotal`.
unfoldable pub total_up : List LineQuote → Bool → Money → OrderQuote
unfolding as_money fee_of
total_up lines pays_by_wallet subtotal = record {
  lines = lines;
  subtotal_inr = subtotal;
  fee_inr = fee_of pays_by_wallet subtotal;
  total_inr =
      as_money (add_decimal (two_places subtotal) (two_places (fee_of pays_by_wallet subtotal)));
}

-- `OrderQuote.build`
unfoldable pub build : List LineQuote → Bool → Result OrderQuote
unfolding sum_money total_up
build [] pays_by_wallet = err (bad_request empty_order)
build (line ∷ lines) pays_by_wallet =
    ok (total_up (line ∷ lines) pays_by_wallet (sum_money (amounts (line ∷ lines))))
