-- ===== src/Payments/Refunds/Retry.antt =====
-- A refund that is asked for again.
use printvendo_backend.Prelude.{
  ◌==◌, if◌then◌else◌, Bool-cases, find, any, update_where, key_elsewhere, conflict, Result, ok,
  err, lift, ◌>>=◌, Run-cases, ℕ, String, ◌≡◌, refl, sym, ap, ◌∙◌, subst, inl, inr, Bool, true,
  false, Option, none, some, List, ◌∷◌, arith, eq_iff,
}
use printvendo_backend.Money.{Money, as_money}
use printvendo_backend.Payments.Models.{Payment, Refund, Books, is_payment}
use printvendo_backend.Payments.Refunds.{
  RazorpayGateway, RefundSink, Wanted, check_refund, has_key, same_refund, given_back, refund_row,
  refund_id, pay_back, write_refund, issue,
}
use printvendo_backend.Payments.Refunds.Given.{refund_id-books, pay_back-books}

module _ {G : Type 0} (razorpay : RazorpayGateway G) (sink : RefundSink G) (p : Payment)
    (w : Wanted) where
  -- What a new refund that is not refused answers: the row that it added.
  abbrev Answers : Books G → Result Refund × Books G → Type 0
  Answers b (err e, b') = Unit
  Answers b (ok r, b') =
      (b'.refunds ≡ r ∷ b.refunds) × (r.payment_id ≡ p.id) × (r.idempotency_key ≡ w.idempotency_key)

  write_refund-Answers :
      (b b' : Books G) (amount : Money) (id : Option String)
      → b'.refunds ≡ b.refunds
      → Answers b (write_refund razorpay sink p amount w id b')
  unfolding write_refund
  write_refund-Answers b b' amount id hr =
      let row = refund_row p amount w id in
      let after = given_back p amount in
      elim (Bool-cases (any (same_refund row) b'.refunds)) [
        | inl used ↦ rw used tt
        | inr fresh ↦
            let written = record b' {
              refunds = row ∷ b'.refunds;
              payments = update_where (is_payment p.id) (λ _. after) b'.payments;
            } in
            elim (Run-cases (pay_back razorpay sink p amount w written)) [
              | inr (e, b3, r) ↦ rw (fresh, r) tt
              | inl (tt, b3, r) ↦
                  let kept =
                    ap (λ z. z.1.refunds) (sym r)
                    ∙ (pay_back-books razorpay sink p w amount written).1 in
                  elim (Run-cases (sink.on_refund after row b3.outside)) [
                    | inr (e, g, t) ↦ rw (fresh, r, t) tt
                    | inl (tt, g, t) ↦ rw (fresh, r, t) (kept ∙ ap (◌∷◌ row) hr, refl, refl)
                  ]
            ]
      ]

  new-Answers :
      (b : Books G) (r : Result (Unit {0}))
      → Answers b (
          (lift r >>= λ _. refund_id razorpay sink p (as_money w.amount) w >>= λ id.
          write_refund razorpay sink p (as_money w.amount) w id)
            b)
  new-Answers b (err e) = tt
  new-Answers b (ok u) = elim (Run-cases (refund_id razorpay sink p (as_money w.amount) w b)) [
    | inr (e, b', r) ↦ rw r tt
    | inl (id, b', r) ↦ rw r (
        write_refund-Answers b b' (as_money w.amount) id (
          ap (λ z. z.1.refunds) (sym r)
          ∙ (refund_id-books razorpay sink p w (as_money w.amount) b).1))
  ]

  issue-Answers :
      (b : Books G)
      → find (has_key w.idempotency_key) b.refunds ≡ none
      → Answers b (issue razorpay sink p w b)
  unfolding issue
  issue-Answers b unknown =
      rw unknown (new-Answers b (check_refund p (as_money w.amount) w.destination))

found_first :
    (key : String) (r : Refund) (rs : List Refund)
    → has_key key r ≡ true
    → find (has_key key) (r ∷ rs) ≡ some r
found_first key r rs h = rw h refl

flipped : (a b : ℕ) (c : Bool) → (b == a) ≡ c → (a == b) ≡ c
flipped a b c h = ground arith

module _ {G : Type 0} (razorpay : RazorpayGateway G) (sink : RefundSink G) where
  -- When a refund with a key that was not used before has been issued, asking again for the same
  -- payment with that key answers the same row and changes nothing, whatever amount and destination
  -- the second request names; and asking for another payment with it is refused.
  pub issue_again :
      (p again : Payment) (w w' : Wanted) (b b' : Books G) (r : Refund)
      → find (has_key w.idempotency_key) b.refunds ≡ none
      → issue razorpay sink p w b ≡ (ok r, b')
      → w'.idempotency_key ≡ w.idempotency_key
      → issue razorpay sink again w' b'
        ≡ (if again.id == p.id then (ok r, b') else (err (conflict key_elsewhere), b'))
  unfolding issue
  issue_again p again w w' b b' r unknown h k =
      let a = subst (Answers razorpay sink p w b) h (issue-Answers razorpay sink p w b unknown) in
      let same_key : has_key w'.idempotency_key r ≡ true =
        (eq_iff r.idempotency_key w'.idempotency_key).1 (a.2 ∙ sym k) in
      let found : find (has_key w'.idempotency_key) b'.refunds ≡ some r =
        ap (find (has_key w'.idempotency_key)) a.0
        ∙ found_first w'.idempotency_key r b.refunds same_key in
      rw (found, a.1)
        (elim (Bool-cases (again.id == p.id)) [
          | inl mine ↦ rw (mine, flipped p.id again.id true mine) refl
          | inr other ↦ rw (other, flipped p.id again.id false other) refl
        ])
