-- ===== src/Payments/Refunds/Bounds.antt =====
-- How much is given back of a payment.
use printvendo_backend.Prelude.{
  ◌==◌, if◌then◌else◌, Bool-cases, Option-cases, find, any, update_where, All, find-All, pos, ◌+ℤ◌,
  ◌≤ℤ◌, int_laws, zero-+ℤ, pure, keep_if_ok, ◌>>◌, Run-cases, ℕ, String, ◌≡◌, refl, sym, ap, ◌∙◌,
  subst, inl, inr, Bool, true, false, Option, List, [], ◌∷◌, arith,
}
use printvendo_backend.Money.{Money, as_money}
use printvendo_backend.Payments.Charges.{
  is_captured, as_captured, claims_payment, as_failed, record_capture, record_failure,
}
use printvendo_backend.Payments.Models.{Payment, Refund, Books, is_payment}
use printvendo_backend.Payments.Refunds.{
  RazorpayGateway, RefundSink, Wanted, given_back, refund_row, PaymentEvent, gives_back, captures,
  fails, about, issue, act_on, happen, run_payments,
}
use printvendo_backend.Payments.Refunds.Given.{Gave, nothing, gave, issue-Gave}

-- What the refunds of one payment come to.
unfoldable pub given_for : ℕ → List Refund → Money
given_for i [] = pos 0
given_for i (r ∷ rs) = (if r.payment_id == i then r.amount_inr else pos 0) +ℤ given_for i rs

-- The payment's own count of what was given back is what its refunds come to, and between nothing
-- and all that was paid.
pub record IsBooked (rs : List Refund) (p : Payment) : Type 0 where
  pub counted : given_for p.id rs ≡ p.refunded_inr
  pub not_below : pos 0 ≤ℤ p.refunded_inr
  pub not_above : p.refunded_inr ≤ℤ p.amount_inr

All-save_row :
    (P Q : Payment → Type 0) (q : Payment → Bool) (p : Payment) (ps : List Payment)
    → Q p
    → ((x : Payment) → q x ≡ false → P x → Q x)
    → All P ps
    → All Q (update_where q (λ _. p) ps)
All-save_row P Q q p [] h k a = tt
All-save_row P Q q p (x ∷ xs) h k a = elim (Bool-cases (q x)) [
  | inl hit ↦ rw hit (h, All-save_row P Q q p xs h k a.1)
  | inr miss ↦ rw miss (k x miss a.0, All-save_row P Q q p xs h k a.1)
]

other_given :
    (r : Refund) (rs : List Refund) (x : Payment)
    → (x.id == r.payment_id) ≡ false
    → given_for x.id (r ∷ rs) ≡ given_for x.id rs
unfolding given_for
other_given r rs x h =
    let apart : (r.payment_id == x.id) ≡ false = ground arith in
    rw apart (zero-+ℤ (given_for x.id rs))

own_given :
    (r : Refund) (rs : List Refund) (i : ℕ)
    → r.payment_id ≡ i
    → given_for i (r ∷ rs) ≡ r.amount_inr +ℤ given_for i rs
unfolding given_for
own_given r rs i h = let mine : (r.payment_id == i) ≡ true = ground arith in rw mine refl

paid_more : (a b : Money) → a +ℤ b ≡ b +ℤ a
paid_more a b = omega int_laws

-- A capture and a failure write the status of a row, and leave its sums.
pub same_sums :
    (rs : List Refund) (p p' : Payment)
    → p'.id ≡ p.id
    → p'.amount_inr ≡ p.amount_inr
    → p'.refunded_inr ≡ p.refunded_inr
    → IsBooked rs p
    → IsBooked rs p'
same_sums rs p p' i a r h = record {
  counted = ap (λ n. given_for n rs) i ∙ h.counted ∙ sym r;
  not_below = subst (λ z. pos 0 ≤ℤ z) (sym r) h.not_below;
  not_above =
      subst (λ z. z ≤ℤ p'.amount_inr) (sym r)
        (subst (λ z. p.refunded_inr ≤ℤ z) (sym a) h.not_above);
}

module _ {G : Type 0} where
  abbrev pub AreBooked : Books G → Type 0
  AreBooked b = All (IsBooked b.refunds) b.payments

  pub Gave-AreBooked :
      {b b' : Books G} {p : Payment} {w : Wanted}
      → Gave b b' p w
      → IsBooked b.refunds p
      → AreBooked b
      → AreBooked b'
  Gave-AreBooked {b} {b'} (nothing hp hr) i h =
      subst (λ rs. All (IsBooked rs) b'.payments) (sym hr)
        (subst (All (IsBooked b.refunds)) (sym hp) h)
  Gave-AreBooked {b} {b'} {p} {w} (gave id a fresh hp hr) i h =
      let amount = as_money w.amount in
      let row = refund_row p amount w id in
      let rs = row ∷ b.refunds in
      let counted = i.counted in
      let below = i.not_below in
      let within = a.within in
      let some_money = a.some_money in
      let mine : IsBooked rs (given_back p amount) = record {
        counted =
            own_given row b.refunds p.id refl
            ∙ ap (λ z. amount +ℤ z) counted
            ∙ paid_more amount p.refunded_inr;
        not_below = omega int_laws;
        not_above = within;
      } in
      subst (λ z. All (IsBooked z) b'.payments) (sym hr)
        (subst (All (IsBooked rs)) (sym hp) (
          All-save_row (IsBooked b.refunds) (IsBooked rs) (is_payment p.id) (given_back p amount)
            b.payments mine
            (λ x miss k. record {
              counted = other_given row b.refunds x miss ∙ k.counted;
              not_below = k.not_below;
              not_above = k.not_above;
            })
            h))

  pub save-AreBooked :
      (b : Books G) (q : Payment → Bool) (p' : Payment)
      → IsBooked b.refunds p'
      → AreBooked b
      → All (IsBooked b.refunds) (update_where q (λ _. p') b.payments)
  save-AreBooked b q p' i h =
      All-save_row (IsBooked b.refunds) (IsBooked b.refunds) q p' b.payments i (λ x _ k. k) h

  capture-AreBooked :
      (p : Payment) (id : String) (now : ℕ) (b : Books G)
      → IsBooked b.refunds p
      → AreBooked b
      → AreBooked (keep_if_ok b ((record_capture p id now >> pure tt) b)).1
  unfolding record_capture
  capture-AreBooked p id now b i h = elim (Bool-cases (is_captured p.status)) [
    | inl already ↦ rw already h
    | inr open_row ↦ elim (Bool-cases (any (claims_payment p.id id) b.payments)) [
      | inl elsewhere ↦ rw (open_row, elsewhere) h
      | inr free ↦
          rw (open_row, free)
            (save-AreBooked b (is_payment p.id) (as_captured id now p)
              (same_sums b.refunds p (as_captured id now p) refl refl refl i) h)
    ]
  ]

  failure-AreBooked :
      (p : Payment) (reason : Option String) (b : Books G)
      → IsBooked b.refunds p
      → AreBooked b
      → AreBooked (keep_if_ok b ((record_failure p reason >> pure tt) b)).1
  unfolding record_failure
  failure-AreBooked p reason b i h = elim (Bool-cases (is_captured p.status)) [
    | inl already ↦ rw already h
    | inr open_row ↦ rw open_row (
        save-AreBooked b (is_payment p.id) (as_failed reason p)
          (same_sums b.refunds p (as_failed reason p) refl refl refl i) h)
  ]

module _ {G : Type 0} (razorpay : RazorpayGateway G) (sink : RefundSink G) where
  issue-AreBooked :
      (p : Payment) (w : Wanted) (b : Books G)
      → IsBooked b.refunds p
      → AreBooked b
      → AreBooked (keep_if_ok b ((issue razorpay sink p w >> pure tt) b)).1
  issue-AreBooked p w b i h = elim (Run-cases (issue razorpay sink p w b)) [
    | inr (e, b', r) ↦ rw r h
    | inl (row, b', r) ↦
        let done = subst (λ z. Gave b (keep_if_ok b z).1 p w) r (issue-Gave razorpay sink p w b) in
        rw r (Gave-AreBooked done i h)
  ]

  act_on-AreBooked :
      (e : PaymentEvent) (p : Payment) (b : Books G)
      → IsBooked b.refunds p
      → AreBooked b
      → AreBooked (keep_if_ok b (act_on razorpay sink e p b)).1
  unfolding act_on
  act_on-AreBooked (gives_back i w) p b k h = issue-AreBooked p w b k h
  act_on-AreBooked (captures i id now) p b k h = capture-AreBooked p id now b k h
  act_on-AreBooked (fails i reason) p b k h = failure-AreBooked p reason b k h

  happen-AreBooked :
      (e : PaymentEvent) (b : Books G) → AreBooked b → AreBooked (happen razorpay sink e b)
  unfolding happen
  happen-AreBooked e b h = elim (Option-cases (find (is_payment (about e)) b.payments)) [
    | inl unknown ↦ rw (unknown, happen) h
    | inr (p, f) ↦
        rw (f, happen)
          (act_on-AreBooked e p b
            (find-All (IsBooked b.refunds) (is_payment (about e)) b.payments p h f).0 h)
  ]

  -- Through any refunds, retried or not, captures and failures, in any order, and whatever
  -- Razorpay and the orders answer: of each payment, what its refunds come to is its
  -- `refunded_inr`, and that is never negative and never more than was paid, when that was so at
  -- the start.
  pub run_payments-AreBooked :
      (es : List PaymentEvent) (b : Books G)
      → AreBooked b
      → AreBooked (run_payments razorpay sink es b)
  unfolding run_payments
  run_payments-AreBooked [] b h = h
  run_payments-AreBooked (e ∷ es) b h =
      run_payments-AreBooked es (happen razorpay sink e b) (happen-AreBooked e b h)
