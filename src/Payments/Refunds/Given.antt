-- ===== src/Payments/Refunds/Given.antt =====
-- What a refund has done to the books when it was not refused.
use printvendo_backend.Prelude.{
  ◌==◌, Bool-cases, Option-cases, find, any, update_where, pos, ◌+ℤ◌, ◌-ℤ◌, ◌≤ℤ◌, ◌<ℤ◌, ltb_ℤ,
  int_laws, refund_recorded, Error, conflict, Result, ok, err, lift, keep_if_ok, ◌>>=◌, Run-cases,
  String, ◌≡◌, refl, sym, ap, ◌∙◌, inl, inr, true, false, Option, ◌∷◌, arith,
}
use printvendo_backend.Money.{Money, as_money}
use printvendo_backend.Payments.Models.{
  Payment, RefundDestination, to_source, to_wallet, Refund, Books, is_payment,
}
use printvendo_backend.Payments.Refunds.{
  RazorpayGateway, RefundSink, Wanted, is_refundable, may_go_to_wallet, may_go_to_source,
  check_refund, has_key, same_refund, given_back, refund_row, refund_id, pay_back, write_refund,
  issue,
}

-- The destination that the payment's row allows.
abbrev pub IsLegal : Payment → RefundDestination → Type 0
IsLegal p to_wallet = may_go_to_wallet p ≡ true
IsLegal p to_source = may_go_to_source p ≡ true

-- What must hold of a refund that passes the rules.
pub record IsAllowed (p : Payment) (amount : Money) (d : RefundDestination) : Type 0 where
  pub some_money : pos 0 <ℤ amount
  pub within : p.refunded_inr +ℤ amount ≤ℤ p.amount_inr
  pub refundable : is_refundable p.status ≡ true
  pub legal : IsLegal p d

within_available :
    (paid back amount : Money) → ltb_ℤ (paid -ℤ back) amount ≡ false → back +ℤ amount ≤ℤ paid
within_available paid back amount h =
    let fits : amount ≤ℤ paid -ℤ back = ground arith in omega int_laws

pub check_refund-IsAllowed :
    (p : Payment) (amount : Money) (d : RefundDestination)
    → check_refund p amount d ≡ ok tt
    → IsAllowed p amount d
unfolding check_refund
check_refund-IsAllowed p amount to_wallet h = record {
  some_money = ground arith;
  within = within_available p.amount_inr p.refunded_inr amount (ground arith);
  refundable = ground arith;
  legal = ground arith;
}
check_refund-IsAllowed p amount to_source h = record {
  some_money = ground arith;
  within = within_available p.amount_inr p.refunded_inr amount (ground arith);
  refundable = ground arith;
  legal = ground arith;
}

module _ {G : Type 0} where
  -- Nothing was given back, or one refund was, by a key that was not used before.
  pub data Gave (b b' : Books G) (p : Payment) (w : Wanted) : Type 0 where
    nothing : b'.payments ≡ b.payments → b'.refunds ≡ b.refunds → Gave b b' p w
    gave :
        (id : Option String)
        → IsAllowed p (as_money w.amount) w.destination
        → any (same_refund (refund_row p (as_money w.amount) w id)) b.refunds ≡ false
        → b'.payments
          ≡ update_where (is_payment p.id) (λ _. given_back p (as_money w.amount)) b.payments
        → b'.refunds ≡ refund_row p (as_money w.amount) w id ∷ b.refunds
        → Gave b b' p w

module _ {G : Type 0} (razorpay : RazorpayGateway G) (sink : RefundSink G) (p : Payment)
    (w : Wanted) where
  abbrev After : Books G → Result Refund × Books G → Type 0
  After b r = Gave b (keep_if_ok b r).1 p w

  refused : (b : Books G) (e : Error) (b' : Books G) → After b (err e, b')
  refused b e b' = nothing refl refl

  -- Asking Razorpay leaves the books alone.
  pub refund_id-books :
      (amount : Money) (b : Books G)
      → let b' = (refund_id razorpay sink p amount w b).1 in
        (b'.payments ≡ b.payments) × (b'.refunds ≡ b.refunds)
  unfolding refund_id
  refund_id-books amount b = ground arith

  -- So does crediting a balance.
  pub pay_back-books :
      (amount : Money) (b : Books G)
      → let b' = (pay_back razorpay sink p amount w b).1 in
        (b'.payments ≡ b.payments) × (b'.refunds ≡ b.refunds)
  unfolding pay_back
  pay_back-books amount b = ground arith

  write_refund-Gave :
      (b b' : Books G) (id : Option String)
      → IsAllowed p (as_money w.amount) w.destination
      → b'.payments ≡ b.payments
      → b'.refunds ≡ b.refunds
      → After b (write_refund razorpay sink p (as_money w.amount) w id b')
  unfolding write_refund
  write_refund-Gave b b' id a hp hr =
      let amount = as_money w.amount in
      let row = refund_row p amount w id in
      let after = given_back p amount in
      elim (Bool-cases (any (same_refund row) b'.refunds)) [
        | inl used ↦ rw used (refused b (conflict refund_recorded) b')
        | inr fresh ↦
            let written = record b' {
              refunds = row ∷ b'.refunds;
              payments = update_where (is_payment p.id) (λ _. after) b'.payments;
            } in
            elim (Run-cases (pay_back razorpay sink p amount w written)) [
              | inr (e, b3, r) ↦ rw (fresh, r) (refused b e b3)
              | inl (tt, b3, r) ↦
                  let kept = pay_back-books amount written in
                  let kept_payments : b3.payments ≡ written.payments =
                    ap (λ z. z.1.payments) (sym r) ∙ kept.0 in
                  let kept_refunds : b3.refunds ≡ written.refunds =
                    ap (λ z. z.1.refunds) (sym r) ∙ kept.1 in
                  elim (Run-cases (sink.on_refund after row b3.outside)) [
                    | inr (e, g, t) ↦ rw (fresh, r, t) (refused b e (record b3 { outside = g }))
                    | inl (tt, g, t) ↦
                        rw (fresh, r, t)
                          (gave id a (rw hr at fresh)
                            (kept_payments ∙ ap (update_where (is_payment p.id) (λ _. after)) hp)
                            (kept_refunds ∙ ap (◌∷◌ row) hr))
                  ]
            ]
      ]

  -- The rules have been met: Razorpay is asked, and the rows are written.
  allowed-Gave :
      (b : Books G)
      → IsAllowed p (as_money w.amount) w.destination
      → After b (
          (refund_id razorpay sink p (as_money w.amount) w >>= λ id.
          write_refund razorpay sink p (as_money w.amount) w id)
            b)
  allowed-Gave b a =
      let books = refund_id-books (as_money w.amount) b in
      elim (Run-cases (refund_id razorpay sink p (as_money w.amount) w b)) [
        | inr (e, b', r) ↦ rw r (refused b e b')
        | inl (id, b', r) ↦ rw r (
            write_refund-Gave b b' id a (ap (λ z. z.1.payments) (sym r) ∙ books.0)
              (ap (λ z. z.1.refunds) (sym r) ∙ books.1))
      ]

  new-Gave :
      (b : Books G) (r : Result (Unit {0}))
      → check_refund p (as_money w.amount) w.destination ≡ r
      → After b (
          (lift r >>= λ _. refund_id razorpay sink p (as_money w.amount) w >>= λ id.
          write_refund razorpay sink p (as_money w.amount) w id)
            b)
  new-Gave b (err e) h = refused b e b
  new-Gave b (ok tt) h =
      allowed-Gave b (check_refund-IsAllowed p (as_money w.amount) w.destination h)

  -- A refund that is issued gave back nothing, or one allowed sum by a key of its own.
  pub issue-Gave : (b : Books G) → After b (issue razorpay sink p w b)
  unfolding issue
  issue-Gave b = elim (Option-cases (find (has_key w.idempotency_key) b.refunds)) [
    | inl unknown ↦ rw unknown (new-Gave b (check_refund p (as_money w.amount) w.destination) refl)
    | inr (old, e) ↦ elim (Bool-cases (old.payment_id == p.id)) [
      | inl mine ↦ rw (e, mine) (nothing refl refl)
      | inr other ↦ rw (e, other) (nothing refl refl)
    ]
  ]
