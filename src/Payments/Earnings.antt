-- ===== src/Payments/Earnings.antt =====
-- app/modules/payments/earnings.py: what was taken, and what went back.
-- The day of a moment, in the shop's time zone, is a parameter, `day_of`.
pub mod Sums
pub mod Days
pub mod Named
pub mod Agree
mod Examples
use mathlib.Core.Option
use printvendo_backend.Prelude.{
  ltb, leb, ◌==◌, opt_eq, length, filter, any, pos, ◌+ℤ◌, ◌-ℤ◌, ℕ, zero, suc, ◌+◌, ◌-◌, min, max,
  Bool, true, false, not, ◌&&◌, ◌||◌, Option, none, some, List, [], ◌∷◌, map,
}
use printvendo_backend.Money.{Money, two_places, as_money}
use printvendo_backend.Payments.Models.{
  PaymentKind, print_order, PaymentSource, wallet, PaymentStatus, captured, refunded,
  partially_refunded, Payment,
}

-- `Earnings`
pub record Earnings : Type 0 where
  pub gross_inr : Money
  pub refunded_inr : Money
  pub net_inr : Money
  pub order_count : ℕ

-- `Earnings.of`
unfoldable pub earnings_of : Money → Money → ℕ → Earnings
unfolding as_money
earnings_of gross refunded_sum orders =
    let gross_inr = as_money (two_places gross) in
    let refunded_inr = as_money (two_places refunded_sum) in
    record {
      gross_inr = gross_inr;
      refunded_inr = refunded_inr;
      net_inr = as_money (two_places (gross_inr -ℤ refunded_inr));
      order_count = orders;
    }

-- SETTLED_PAYMENT_STATES
abbrev pub is_settled : PaymentStatus → Bool
is_settled captured = true
is_settled partially_refunded = true
is_settled refunded = true
is_settled _ = false

abbrev pub is_sale : PaymentKind → Bool
is_sale print_order = true
is_sale _ = false

abbrev pub is_wallet : PaymentSource → Bool
is_wallet wallet = true
is_wallet _ = false

-- `Payment.kiosk_id.in_(kiosk_ids)`
abbrev pub is_of : List ℕ → Payment → Bool
is_of kiosk_ids p = any (λ k. opt_eq p.kiosk_id (some k)) kiosk_ids

-- `captured_at >= since` and `captured_at < until`, which no null passes.
abbrev pub from_since : Option ℕ → Payment → Bool
from_since none p = true
from_since (some since) p = elim p.captured_at [ none ↦ false | some t ↦ leb since t ]

abbrev pub to_until : Option ℕ → Payment → Bool
to_until none p = true
to_until (some until) p = elim p.captured_at [ none ↦ false | some t ↦ ltb t until ]

-- The rows that a query counts.
abbrev pub is_counted : List ℕ → Option ℕ → Option ℕ → Bool → Payment → Bool
is_counted kiosk_ids since until include_wallet p =
    is_settled p.status
    && (is_of kiosk_ids p
        && (is_sale p.kind
            && ((include_wallet || not (is_wallet p.source))
                && (from_since since p && to_until until p))))

-- `func.sum` of a column.
unfoldable pub total : (Payment → Money) → List Payment → Money
total column [] = pos 0
total column (p ∷ ps) = column p +ℤ total column ps

-- The figures of some rows.
unfoldable pub figures : List Payment → Earnings
unfolding total earnings_of
figures rows =
    earnings_of (total (λ p. p.amount_inr) rows) (total (λ p. p.refunded_inr) rows) (length rows)

-- A query with no kiosk is not made.
abbrev pub rows_of : List Payment → List ℕ → Option ℕ → Option ℕ → Bool → List Payment
rows_of payments [] since until include_wallet = []
rows_of payments (k ∷ ks) since until include_wallet =
    filter (is_counted (k ∷ ks) since until include_wallet) payments

-- `earnings_for_kiosks`
unfoldable pub earnings_for_kiosks : List Payment → List ℕ → Option ℕ → Option ℕ → Bool → Earnings
unfolding figures
earnings_for_kiosks payments kiosk_ids since until include_wallet =
    figures (rows_of payments kiosk_ids since until include_wallet)

abbrev pub of_kiosk : ℕ → Payment → Bool
of_kiosk k p = opt_eq p.kiosk_id (some k)

-- The keys of a dictionary that is made from a list: each once, where it first stands.
unfoldable pub named_once : List ℕ → List ℕ
named_once [] = []
named_once (k ∷ ks) = k ∷ filter (λ j. not (j == k)) (named_once ks)

-- `earnings_by_kiosk`, the dictionary as the list of its keys and figures.
unfoldable pub earnings_by_kiosk : List Payment → List ℕ → Option ℕ → Option ℕ → List (ℕ × Earnings)
unfolding figures named_once
earnings_by_kiosk payments kiosk_ids since until =
    map (λ k. (k, figures (filter (of_kiosk k) (rows_of payments kiosk_ids since until true))))
      (named_once kiosk_ids)

pub record DayEarnings : Type 0 where
  pub day : ℕ
  pub earnings : Earnings

module _ (day_of : ℕ → ℕ) where
  -- The days of some rows; a row that has no moment of capture has none, and then `min` raises.
  abbrev pub days_of : List Payment → Option (List ℕ)
  days_of [] = some []
  days_of (p ∷ ps) = elim p.captured_at [
    | none ↦ none
    | some t ↦ Option.map (◌∷◌ (day_of t)) (days_of ps)
  ]

  abbrev pub lowest : ℕ → List ℕ → ℕ
  lowest d [] = d
  lowest d (e ∷ es) = min e (lowest d es)

  abbrev pub highest : ℕ → List ℕ → ℕ
  highest d [] = d
  highest d (e ∷ es) = max e (highest d es)

  -- The day of a row's capture.
  abbrev pub captured_on : ℕ → Payment → Bool
  captured_on d p = opt_eq (Option.map day_of p.captured_at) (some d)

  -- So many days from `cursor` on, each with its rows.
  abbrev pub series_from : ℕ → ℕ → List Payment → List DayEarnings
  unfolding figures
  series_from zero cursor rows = []
  series_from (suc n) cursor rows =
      record { day = cursor; earnings = figures (filter (captured_on cursor) rows) }
      ∷ series_from n (cursor + 1) rows

  abbrev pub series_of : Option (List ℕ) → List Payment → Option (List DayEarnings)
  unfolding figures
  series_of none rows = none
  series_of (some []) rows = some []
  series_of (some (d ∷ ds)) rows =
      some (series_from (highest d ds + 1 - lowest d ds) (lowest d ds) rows)

  -- `earnings_by_day`: from the first day with takings to the last.
  unfoldable pub earnings_by_day :
      List Payment → List ℕ → Option ℕ → Option ℕ → Option (List DayEarnings)
  unfolding figures
  earnings_by_day payments kiosk_ids since until =
      series_of (days_of (rows_of payments kiosk_ids since until true))
        (rows_of payments kiosk_ids since until true)
