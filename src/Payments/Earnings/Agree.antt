-- ===== src/Payments/Earnings/Agree.antt =====
-- The three reports of a window.
use printvendo_backend.Prelude.{
  Bool-cases, opt_eq, filter, All, ℕ, ◌≡◌, refl, ap, ◌∙◌, inl, inr, Bool, true, false, Option, some,
  List, [], ◌∷◌, map,
}
use printvendo_backend.Payments.Models.{Payment}
use printvendo_backend.Payments.Earnings.{
  Earnings, is_settled, is_of, is_counted, figures, rows_of, earnings_for_kiosks, of_kiosk,
  named_once, earnings_by_kiosk, DayEarnings, days_of, earnings_by_day,
}
use printvendo_backend.Payments.Earnings.Named.{named_once-AreDistinct, any-named_once}
use printvendo_backend.Payments.Earnings.Sums.{added, keys, added-split}
use printvendo_backend.Payments.Earnings.Days.{series_of-added, kiosk_once}

counted_of :
    (ids : List ℕ) (since until : Option ℕ) (wallets : Bool) (p : Payment)
    → is_counted ids since until wallets p ≡ true
    → is_of ids p ≡ true
counted_of ids since until wallets p h = elim (Bool-cases (is_of ids p)) [
  | inl own ↦ own
  | inr other ↦ elim (Bool-cases (is_settled p.status)) [
    | inl settled ↦ let no : false ≡ true = rw (settled, other) at h in absurd cc
    | inr open_row ↦ let clash : false ≡ true = rw open_row at h in absurd cc
  ]
]

All-filter :
    (p : Payment → Bool) (P : Payment → Type 0) (rows : List Payment)
    → ((x : Payment) → p x ≡ true → P x)
    → All P (filter p rows)
All-filter p P [] k = tt
All-filter p P (x ∷ rows) k = elim (Bool-cases (p x)) [
  | inl kept ↦ rw kept (k x kept, All-filter p P rows k)
  | inr dropped ↦ rw dropped (All-filter p P rows k)
]

rows_once :
    (payments : List Payment) (ids : List ℕ) (since until : Option ℕ)
    → All (λ p. keys of_kiosk (named_once ids) p ≡ 1) (rows_of payments ids since until true)
rows_once payments [] since until = tt
rows_once payments (k ∷ ks) since until =
    All-filter (is_counted (k ∷ ks) since until true)
      (λ p. keys of_kiosk (named_once (k ∷ ks)) p ≡ 1) payments
      (λ p h. kiosk_once (named_once (k ∷ ks)) p (named_once-AreDistinct (k ∷ ks)) (
        any-named_once (λ j. opt_eq p.kiosk_id (some j)) (k ∷ ks)
        ∙ counted_of (k ∷ ks) since until true p h))

map-seconds :
    (f : ℕ → Earnings) (ks : List ℕ)
    → map (λ (e : ℕ × Earnings). e.1) (map (λ k. (k, f k)) ks) ≡ map f ks
map-seconds f [] = refl
map-seconds f (k ∷ ks) = ap (◌∷◌ (f k)) (map-seconds f ks)

-- Whenever the series of days is answered, its days come to the figures of the window, and so do the
-- figures of the single kiosks: takings, refunds, net and the number of orders, for any kiosks that
-- are asked for, also when one is named twice, in any window, and with whatever days the time zone
-- gives.
pub reports_agree :
    (day_of : ℕ → ℕ) (payments : List Payment) (kiosk_ids : List ℕ) (since until : Option ℕ)
    (series : List DayEarnings)
    → earnings_by_day day_of payments kiosk_ids since until ≡ some series
    → (added (map (λ e. e.earnings) series)
        ≡ earnings_for_kiosks payments kiosk_ids since until true)
      × (added (map (λ (e : ℕ × Earnings). e.1) (earnings_by_kiosk payments kiosk_ids since until))
          ≡ earnings_for_kiosks payments kiosk_ids since until true)
unfolding earnings_by_day earnings_for_kiosks earnings_by_kiosk
reports_agree day_of payments kiosk_ids since until series h =
    let rows = rows_of payments kiosk_ids since until true in
    (
      series_of-added day_of (days_of day_of rows) rows series refl h,
      ap added (map-seconds (λ k. figures (filter (of_kiosk k) rows)) (named_once kiosk_ids))
          ∙ added-split of_kiosk (named_once kiosk_ids) rows
              (rows_once payments kiosk_ids since until),
    )
