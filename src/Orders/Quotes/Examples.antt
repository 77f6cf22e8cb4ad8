-- ===== src/Orders/Quotes/Examples.antt =====
-- Tests and instances of the theorems on quotes.
use printvendo_backend.Prelude.{
  pos, pos_part, ◌+ℤ◌, ◌*ℤ◌, ◌≤ℤ◌, int_laws, empty_order, bad_request, ok, err, ◌≤◌, ◌≡◌, refl, ◌⊎◌,
  true, false, none, List, [], ◌∷◌, arith,
}
use printvendo_backend.Money.{as_money}
use printvendo_backend.Money.Rounding.{sum}
use printvendo_backend.Printing.Options.Workload.{PrintOptions, load_of}
use printvendo_backend.Kiosks.Pricing.{default_prices}
use printvendo_backend.Kiosks.Pricing.Fair.{IsFair}
use printvendo_backend.Orders.Quotes.{gateway_fee, LineQuote, amount_of, line_of, OrderQuote, build}
use printvendo_backend.Orders.Quotes.Fees.{plain_fee, build_total}
use printvendo_backend.Orders.Quotes.Duplex.{on_both_sides, duplex-cheaper}

abbrev ten_pages : PrintOptions
ten_pages = record { copies = 1; colour = false; duplex = true; page_range = none }

-- Ten pages on five sheets at three rupees a sheet.
ten_pages_amount :
    (line_of ten_pages default_prices (load_of ten_pages 10 10)).amount_inr ≡ pos 1500
unfolding line_of load_of amount_of as_money ◌*ℤ◌ ◌+ℤ◌
ten_pages_amount = refl

abbrev one_line : List LineQuote
one_line = record { impressions = 10; sheets = 5; amount_inr = pos 1500; page_count = 10 } ∷ []

build_total_example :
    ((one_line ≡ []) × (build one_line false ≡ err (bad_request empty_order)))
    ⊎ ((q : OrderQuote) × (build one_line false ≡ ok q)
        × (q.lines ≡ one_line)
        × (q.subtotal_inr ≡ sum (pos 1500 ∷ []))
        × (q.total_inr ≡ q.subtotal_inr +ℤ q.fee_inr)
        × (q.fee_inr ≡ pos (plain_fee (pos_part q.subtotal_inr)))
        × (pos 0 ≤ℤ q.fee_inr)
        × (q.fee_inr ≤ℤ pos 200))
build_total_example = build_total one_line false (omega arith, tt)

fee_on_one_line : gateway_fee (pos 1500) ≡ pos 30
unfolding gateway_fee as_money ◌*ℤ◌
fee_on_one_line = refl

default_prices-IsFair : IsFair default_prices
default_prices-IsFair = record {
  bw = (omega int_laws, omega int_laws);
  color = (omega int_laws, omega int_laws);
}

duplex-cheaper_example :
    let duplex =
      line_of
        (on_both_sides true ten_pages)
        default_prices
        (load_of (on_both_sides true ten_pages) 10 10) in
    let simplex =
      line_of
        (on_both_sides false ten_pages)
        default_prices
        (load_of (on_both_sides false ten_pages) 10 10) in
    (duplex.amount_inr ≤ℤ simplex.amount_inr)
    × (duplex.sheets ≤ simplex.sheets)
    × (duplex.impressions ≡ simplex.impressions)
duplex-cheaper_example = duplex-cheaper ten_pages 10 10 default_prices default_prices-IsFair
