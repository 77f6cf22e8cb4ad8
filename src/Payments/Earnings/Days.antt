-- ===== src/Payments/Earnings/Days.antt =====
-- The days and the kiosks of a window.
use mathlib.Core.Option
use printvendo_backend.Prelude.{
  ◌==◌, ==_iff, Bool-cases, true_not_false, Option-cases, opt_eq, filter, any, All, All-map, count,
  ◌-ℤ◌, ℕ, zero, suc, ◌+◌, ◌-◌, ◌≤◌, ◌<◌, ◌≡◌, refl, sym, ap, ◌∙◌, subst, inl, inr, true, false,
  Option, none, some, List, [], ◌∷◌, map, arith,
}
use printvendo_backend.Payments.Models.{Payment}
use printvendo_backend.Payments.Earnings.{
  earnings_of, is_of, total, figures, of_kiosk, DayEarnings, days_of, lowest, highest, captured_on,
  series_from, series_of,
}
use printvendo_backend.Payments.Earnings.Sums.{added, figures_sums, split, keys, added-split}

abbrev from_day : ℕ → ℕ → List ℕ
from_day zero d = []
from_day (suc n) d = d ∷ from_day n (d + 1)

-- A day is once among some days that follow each other, or it is not.
day_after : (n d e : ℕ) → d < e → count (λ k. d == k) (from_day n e) ≡ 0
day_after zero d e l = refl
day_after (suc n) d e l =
    let rest = day_after n d (e + 1) (omega arith) in
    let other : (d == e) ≡ false = ground arith in rw other (omega arith)

day_once : (n d e : ℕ) → e ≤ d → d < e + n → count (λ k. d == k) (from_day n e) ≡ 1
day_once zero d e l u = absurd (omega arith)
day_once (suc n) d e l u = elim (Bool-cases (d == e)) [
  | inl today ↦
      let same = (==_iff d e).0 today in
      let rest = day_after n d (e + 1) (omega arith) in rw today (omega arith)
  | inr later_day ↦
      let apart : e < d = ground arith in
      let rest = day_once n d (e + 1) (omega arith) (omega arith) in rw later_day (omega arith)
]

figures-nothing : figures [] ≡ added []
unfolding figures total earnings_of ◌-ℤ◌
figures-nothing = figures_sums [] ∙ refl

module _ (day_of : ℕ → ℕ) where
  -- A row that has a day between two days.
  HasDay : ℕ → ℕ → Payment → Type 0
  HasDay lo hi p = (d : ℕ) × (Option.map day_of p.captured_at ≡ some d) × (lo ≤ d) × (d ≤ hi)

  lowest-le : (d : ℕ) (ds : List ℕ) → lowest day_of d ds ≤ d
  lowest-le d [] = omega arith
  lowest-le d (e ∷ es) = let rest = lowest-le d es in omega arith

  highest-ge : (d : ℕ) (ds : List ℕ) → d ≤ highest day_of d ds
  highest-ge d [] = omega arith
  highest-ge d (e ∷ es) = let rest = highest-ge d es in omega arith

  All-between :
      (lo hi d : ℕ) (ds : List ℕ)
      → lo ≤ lowest day_of d ds
      → highest day_of d ds ≤ hi
      → All (λ e. (lo ≤ e) × (e ≤ hi)) ds
  All-between lo hi d [] l u = tt
  All-between lo hi d (e ∷ es) l u =
      ((omega arith, omega arith), All-between lo hi d es (omega arith) (omega arith))

  rows_between :
      (lo hi : ℕ) (rows : List Payment) (ds : List ℕ)
      → days_of day_of rows ≡ some ds
      → All (λ e. (lo ≤ e) × (e ≤ hi)) ds
      → All (HasDay lo hi) rows
  unfolding HasDay
  rows_between lo hi [] ds h a = tt
  rows_between lo hi (p ∷ rows) ds h a = elim (Option-cases p.captured_at) [
    | inl missing ↦ absurd (cc)
    | inr (t, at_t) ↦ elim (Option-cases (days_of day_of rows)) [
      | inl missing ↦ absurd (cc)
      | inr (es, more) ↦
          let listed : some (day_of t ∷ es) ≡ some ds = rw (at_t, more) at h in
          let same : day_of t ∷ es ≡ ds = cc in
          let both = subst (All (λ e. (lo ≤ e) × (e ≤ hi))) (sym same) a in
          let dated : Option.map day_of p.captured_at ≡ some (day_of t) = rw at_t refl in
          ((day_of t, dated, both.0.0, both.0.1), rows_between lo hi rows es more both.1)
    ]
  ]

  -- The series has one figure for each day from the first to the last.
  series-split :
      (n d : ℕ) (rows : List Payment)
      → map (λ e. e.earnings) (series_from day_of n d rows)
        ≡ split (captured_on day_of) (from_day n d) rows
  unfolding figures
  series-split zero d rows = refl
  series-split (suc n) d rows =
      ap (◌∷◌ (figures (filter (captured_on day_of d) rows))) (series-split n (d + 1) rows)

  dated_once :
      (lo n : ℕ) (p : Payment)
      → HasDay lo (lo + n - 1) p
      → 0 < n
      → keys (captured_on day_of) (from_day n lo) p ≡ 1
  unfolding HasDay
  dated_once lo n p (d, dated, l, u) more = rw dated (day_once n d lo l (omega arith))

  dated_rows :
      (lo n : ℕ) (rows : List Payment)
      → 0 < n
      → All (HasDay lo (lo + n - 1)) rows
      → All (λ p. keys (captured_on day_of) (from_day n lo) p ≡ 1) rows
  dated_rows lo n rows more a =
      All-map (HasDay lo (lo + n - 1)) (λ p. keys (captured_on day_of) (from_day n lo) p ≡ 1) rows
        (λ p h. dated_once lo n p h more) a

  no_days : (rows : List Payment) → days_of day_of rows ≡ some [] → rows ≡ []
  no_days [] h = refl
  no_days (p ∷ rows) h = elim (Option-cases p.captured_at) [
    | inl missing ↦ absurd cc
    | inr (t, at_t) ↦ elim (Option-cases (days_of day_of rows)) [
      | inl missing ↦ absurd cc
      | inr (es, more) ↦
          let listed : some (day_of t ∷ es) ≡ some [] = rw (at_t, more) at h in absurd cc
    ]
  ]

  -- The days of some rows add up to the rows.
  pub series_of-added :
      (ds : Option (List ℕ)) (rows : List Payment) (series : List DayEarnings)
      → days_of day_of rows ≡ ds
      → series_of day_of ds rows ≡ some series
      → added (map (λ e. e.earnings) series) ≡ figures rows
  unfolding figures
  series_of-added none rows series h e = absurd cc
  series_of-added (some []) rows series h e =
      let nothing : [] ≡ series = cc in
      ap (λ z. added (map (λ e. e.earnings) z)) (sym nothing)
      ∙ sym figures-nothing
      ∙ ap figures (sym (no_days rows h))
  series_of-added (some (d ∷ ds)) rows series h e =
      let lo = lowest day_of d ds in
      let hi = highest day_of d ds in
      let below = lowest-le d ds in
      let above = highest-ge d ds in
      let n = hi + 1 - lo in
      let same : series_from day_of n lo rows ≡ series = cc in
      let bounds = All-between lo hi d ds (omega arith) (omega arith) in
      let last : lo + n - 1 ≡ hi = omega arith in
      let dated = rows_between lo hi rows (d ∷ ds) h ((below, above), bounds) in
      ap (λ z. added (map (λ e. e.earnings) z)) (sym same)
      ∙ ap added (series-split n lo rows)
      ∙ added-split (captured_on day_of) (from_day n lo) rows (
          dated_rows lo n rows (omega arith) (subst (λ z. All (HasDay lo z) rows) (sym last) dated))

-- No kiosk is asked for twice.
unfoldable pub AreDistinct : List ℕ → Type 0
AreDistinct [] = Unit
AreDistinct (k ∷ ks) = (any (λ j. j == k) ks ≡ false) × AreDistinct ks

absent : (v : ℕ) (ks : List ℕ) → any (λ j. j == v) ks ≡ false → count (λ k. v == k) ks ≡ 0
absent v [] h = refl
absent v (k ∷ ks) h = elim (Bool-cases (k == v)) [
  | inl own ↦ true_not_false (rw own at h)
  | inr other ↦
      let apart : (v == k) ≡ false = ground arith in
      let rest = absent v ks (rw other at h) in rw apart (omega arith)
]

present :
    (v : ℕ) (ks : List ℕ)
    → AreDistinct ks
    → any (λ k. v == k) ks ≡ true
    → count (λ k. v == k) ks ≡ 1
unfolding AreDistinct
present v [] d h = absurd cc
present v (k ∷ ks) d h = elim (Bool-cases (v == k)) [
  | inl own ↦
      let same = (==_iff v k).0 own in
      let rest = absent v ks (subst (λ z. any (λ j. j == z) ks ≡ false) (sym same) d.0) in
      rw own (omega arith)
  | inr other ↦ let rest = present v ks d.1 (rw other at h) in rw other (omega arith)
]

no_kiosk : (ks : List ℕ) → any (λ k. opt_eq none (some k)) ks ≡ false
no_kiosk [] = refl
no_kiosk (k ∷ ks) = no_kiosk ks

kiosk_of :
    (o : Option ℕ) (ks : List ℕ)
    → AreDistinct ks
    → any (λ k. opt_eq o (some k)) ks ≡ true
    → count (λ k. opt_eq o (some k)) ks ≡ 1
kiosk_of none ks d h = true_not_false (sym h ∙ no_kiosk ks)
kiosk_of (some v) ks d h = present v ks d h

pub kiosk_once :
    (ks : List ℕ) (p : Payment) → AreDistinct ks → is_of ks p ≡ true → keys of_kiosk ks p ≡ 1
kiosk_once ks p d h = kiosk_of p.kiosk_id ks d h
