-- ===== src/Payments/Webhook/External.antt =====
-- A refund that Razorpay reports: what it leaves in the books, whether or not it is refused.
use printvendo_backend.Prelude.{
  ◌==◌, Bool-cases, Option-cases, find, any, update_where, ℤ, Result, ok, err, lift, ◌>>=◌,
  Run-cases, String, str_append, ◌≡◌, refl, ◌⊎◌, inl, inr, false, some, ◌∷◌,
}
use printvendo_backend.Money.{Money, as_money}
use printvendo_backend.Payments.Models.{Payment, to_source, Refund, Books, is_payment}
use printvendo_backend.Payments.Refunds.{
  RazorpayGateway, RefundSink, check_refund, has_key, same_refund, given_back, refund_row,
  refund_id, pay_back, write_refund, issue,
}
use printvendo_backend.Payments.Refunds.Given.{IsAllowed, check_refund-IsAllowed}
use printvendo_backend.Payments.Webhook.{external_refund}

-- The amount of the refund that Razorpay reports.
abbrev pub reported : String → ℤ → Money
reported id paise = as_money (external_refund id paise).amount

abbrev pub reported_row : Payment → String → ℤ → Refund
reported_row p id paise = refund_row p (reported id paise) (external_refund id paise) (some id)

module _ {G : Type 0} where
  -- The refund's row and the payment's count are written, both.
  pub record IsWritten (p : Payment) (id : String) (paise : ℤ) (b b' : Books G) : Type 0 where
    pub allowed : IsAllowed p (reported id paise) to_source
    pub fresh : any (same_refund (reported_row p id paise)) b.refunds ≡ false
    pub payments :
        b'.payments
        ≡ update_where (is_payment p.id) (λ _. given_back p (reported id paise)) b.payments
    pub refunds : b'.refunds ≡ reported_row p id paise ∷ b.refunds

  abbrev pub Writes : Payment → String → ℤ → Books G → Books G → Type 0
  Writes p id paise b b' = (b' ≡ b) ⊎ IsWritten p id paise b b'

module _ {G : Type 0} (razorpay : RazorpayGateway G) (sink : RefundSink G) (p : Payment)
    (id : String) (paise : ℤ) where
  write_refund-Writes :
      (b : Books G)
      → IsAllowed p (reported id paise) to_source
      → Writes p id paise b
          (write_refund razorpay sink p
            (reported id paise)
            (external_refund id paise)
            (some id)
            b).1
  unfolding write_refund pay_back external_refund
  write_refund-Writes b a =
      elim (Bool-cases (any (same_refund (reported_row p id paise)) b.refunds)) [
        | inl used ↦ rw used (inl refl)
        | inr fresh ↦
            elim (Run-cases (
              sink.on_refund (given_back p (reported id paise)) (reported_row p id paise)
                b.outside)) [
                  | inr (e, g, t) ↦
                      rw (fresh, t)
                        (inr
                          (record { allowed = a; fresh = fresh; payments = refl; refunds = refl }))
                  | inl (tt, g, t) ↦
                      rw (fresh, t)
                        (inr
                          (record { allowed = a; fresh = fresh; payments = refl; refunds = refl }))
                ]
      ]

  new-Writes :
      (b : Books G) (r : Result (Unit {0}))
      → check_refund p (reported id paise) to_source ≡ r
      → Writes p id paise b
          ((lift r >>= λ _.
              refund_id razorpay sink p (reported id paise) (external_refund id paise) >>= λ i.
              write_refund razorpay sink p (reported id paise) (external_refund id paise) i)
            b).1
  unfolding refund_id external_refund
  new-Writes b (err e) h = inl refl
  new-Writes b (ok tt) h =
      write_refund-Writes b (check_refund-IsAllowed p (reported id paise) to_source h)

  -- Either nothing is written, or the refund's row and the payment's count both are.
  pub issue-Writes :
      (b : Books G) → Writes p id paise b (issue razorpay sink p (external_refund id paise) b).1
  unfolding issue external_refund
  issue-Writes b = elim (Option-cases (find (has_key (str_append "rzp:" id)) b.refunds)) [
    | inl unknown ↦ rw unknown (new-Writes b (check_refund p (reported id paise) to_source) refl)
    | inr (old, e) ↦ elim (Bool-cases (old.payment_id == p.id)) [
      | inl mine ↦ rw (e, mine) (inl refl)
      | inr other ↦ rw (e, other) (inl refl)
    ]
  ]
