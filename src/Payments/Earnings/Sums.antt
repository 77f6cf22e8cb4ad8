-- ===== src/Payments/Earnings/Sums.antt =====
-- Figures of rows that are split by a key.
use printvendo_backend.Prelude.{
  Bool-cases, length, filter, All, count, pos, ◌+ℤ◌, ◌-ℤ◌, int_laws, ℕ, ◌+◌, ◌≡◌, refl, sym, ap,
  ◌∙◌, inl, inr, Bool, List, [], ◌∷◌, map, arith,
}
use printvendo_backend.Money.Rounding.{as_money-two_places}
use printvendo_backend.Money.{Money}
use printvendo_backend.Payments.Models.{Payment}
use printvendo_backend.Payments.Earnings.{Earnings, earnings_of, total, figures}

-- Some figures, added up.
abbrev pub added : List Earnings → Earnings
added [] = record { gross_inr = pos 0; refunded_inr = pos 0; net_inr = pos 0; order_count = 0 }
added (e ∷ es) = record {
  gross_inr = e.gross_inr +ℤ (added es).gross_inr;
  refunded_inr = e.refunded_inr +ℤ (added es).refunded_inr;
  net_inr = e.net_inr +ℤ (added es).net_inr;
  order_count = e.order_count + (added es).order_count;
}

-- The figures are sums: nothing is rounded.
pub figures_sums :
    (rows : List Payment)
    → figures rows ≡ record {
      gross_inr = total (λ p. p.amount_inr) rows;
      refunded_inr = total (λ p. p.refunded_inr) rows;
      net_inr = total (λ p. p.amount_inr) rows -ℤ total (λ p. p.refunded_inr) rows;
      order_count = length rows;
    }
unfolding figures earnings_of
figures_sums rows =
    let gross = total (λ p. p.amount_inr) rows in
    let back = total (λ p. p.refunded_inr) rows in
    rw (as_money-two_places gross, as_money-two_places back, as_money-two_places (gross -ℤ back))
      refl

pos-+ : (a b : ℕ) → pos (a + b) ≡ pos a +ℤ pos b
pos-+ a b = omega int_laws

pos-injective : {a b : ℕ} → pos a ≡ pos b → a ≡ b
pos-injective {a} {b} h = cc

total_length : (rows : List Payment) → total (λ p. pos 1) rows ≡ pos (length rows)
unfolding total
total_length [] = refl
total_length (p ∷ rows) = rw (total_length rows) (omega int_laws)

-- Two nets that are differences add up to the difference of the sums.
added_net :
    (e f : Earnings)
    → e.net_inr ≡ e.gross_inr -ℤ e.refunded_inr
    → f.net_inr ≡ f.gross_inr -ℤ f.refunded_inr
    → e.net_inr +ℤ f.net_inr ≡ e.gross_inr +ℤ f.gross_inr -ℤ (e.refunded_inr +ℤ f.refunded_inr)
added_net e f h k = rw (h, k) (omega int_laws)

same_figures :
    (e : Earnings) (gross back : Money) (orders : ℕ)
    → e.gross_inr ≡ gross
    → e.refunded_inr ≡ back
    → e.net_inr ≡ e.gross_inr -ℤ e.refunded_inr
    → e.order_count ≡ orders
    → e ≡ record {
      gross_inr = gross;
      refunded_inr = back;
      net_inr = gross -ℤ back;
      order_count = orders;
    }
same_figures e gross back orders g r n o = cc

module _ (belongs : ℕ → Payment → Bool) where
  -- One figure for each key.
  abbrev pub split : List ℕ → List Payment → List Earnings
  unfolding figures
  split ks rows = map (λ k. figures (filter (belongs k) rows)) ks

  abbrev pub keys : List ℕ → Payment → ℕ
  keys ks p = count (λ k. belongs k p) ks

  unfoldable over : (Payment → Money) → List ℕ → List Payment → Money
  unfolding total
  over column [] rows = pos 0
  over column (k ∷ ks) rows = total column (filter (belongs k) rows) +ℤ over column ks rows

  over-none : (column : Payment → Money) (ks : List ℕ) → over column ks [] ≡ pos 0
  unfolding over total
  over-none column [] = refl
  over-none column (k ∷ ks) = rw (over-none column ks) (omega int_laws)

  -- A row of no key adds nothing, and a row of one key adds itself.
  over-absent :
      (column : Payment → Money) (ks : List ℕ) (p : Payment) (rows : List Payment)
      → keys ks p ≡ 0
      → over column ks (p ∷ rows) ≡ over column ks rows
  unfolding over total
  over-absent column [] p rows h = refl
  over-absent column (k ∷ ks) p rows h = elim (Bool-cases (belongs k p)) [
    | inl own ↦ let no : 1 + keys ks p ≡ 0 = rw own at h in absurd (omega arith)
    | inr other ↦
        let rest : 0 + keys ks p ≡ 0 = rw other at h in
        rw (other, over-absent column ks p rows (omega arith)) refl
  ]

  over-once :
      (column : Payment → Money) (ks : List ℕ) (p : Payment) (rows : List Payment)
      → keys ks p ≡ 1
      → over column ks (p ∷ rows) ≡ column p +ℤ over column ks rows
  unfolding over total
  over-once column [] p rows h = absurd (omega arith)
  over-once column (k ∷ ks) p rows h = elim (Bool-cases (belongs k p)) [
    | inl own ↦
        let only : 1 + keys ks p ≡ 1 = rw own at h in
        rw (own, over-absent column ks p rows (omega arith)) (omega int_laws)
    | inr other ↦
        let rest : 0 + keys ks p ≡ 1 = rw other at h in
        rw (other, over-once column ks p rows (omega arith)) (omega int_laws)
  ]

  over-total :
      (column : Payment → Money) (ks : List ℕ) (rows : List Payment)
      → All (λ p. keys ks p ≡ 1) rows
      → over column ks rows ≡ total column rows
  unfolding total
  over-total column ks [] h = over-none column ks
  over-total column ks (p ∷ rows) h =
      over-once column ks p rows h.0 ∙ ap (λ t. column p +ℤ t) (over-total column ks rows h.1)

  -- The added figures, column by column.
  added_columns :
      (ks : List ℕ) (rows : List Payment)
      → let sums = added (split ks rows) in
        (sums.gross_inr ≡ over (λ p. p.amount_inr) ks rows)
        × (sums.refunded_inr ≡ over (λ p. p.refunded_inr) ks rows)
        × (sums.net_inr ≡ sums.gross_inr -ℤ sums.refunded_inr)
        × (pos sums.order_count ≡ over (λ p. pos 1) ks rows)
  unfolding over figures
  added_columns [] rows = (refl, refl, omega int_laws, refl)
  added_columns (k ∷ ks) rows =
      let own = filter (belongs k) rows in
      let f = figures_sums own in
      let rest = added_columns ks rows in
      let gross : (figures own).gross_inr ≡ total (λ p. p.amount_inr) own =
        ap (λ e. e.gross_inr) f in
      let back : (figures own).refunded_inr ≡ total (λ p. p.refunded_inr) own =
        ap (λ e. e.refunded_inr) f in
      let net : (figures own).net_inr
          ≡ total (λ p. p.amount_inr) own -ℤ total (λ p. p.refunded_inr) own =
        ap (λ e. e.net_inr) f in
      let orders : (figures own).order_count ≡ length own = ap (λ e. e.order_count) f in
      (
        rw (gross, rest.0) refl,
        rw (back, rest.1) refl,
        added_net (figures own) (added (split ks rows)) (net ∙ rw (gross, back) refl) rest.2,
        pos-+ (figures own).order_count (added (split ks rows)).order_count
            ∙ rw (orders, rest.3, total_length own) refl,
      )

  -- When each row has one key, the figures of the keys come to the figures of the rows.
  pub added-split :
      (ks : List ℕ) (rows : List Payment)
      → All (λ p. keys ks p ≡ 1) rows
      → added (split ks rows) ≡ figures rows
  added-split ks rows h =
      let columns = added_columns ks rows in
      let orders = columns.3 ∙ over-total (λ p. pos 1) ks rows h ∙ total_length rows in
      same_figures (added (split ks rows)) (total (λ p. p.amount_inr) rows)
        (total (λ p. p.refunded_inr) rows) (length rows)
        (columns.0 ∙ over-total (λ p. p.amount_inr) ks rows h)
        (columns.1 ∙ over-total (λ p. p.refunded_inr) ks rows h) columns.2 (pos-injective orders)
      ∙ sym (figures_sums rows)
