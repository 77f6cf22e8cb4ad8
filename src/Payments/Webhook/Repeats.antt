-- ===== src/Payments/Webhook/Repeats.antt =====
-- An event of a payment, once it has been taken: what it finds when it comes again.
use printvendo_backend.Prelude.{
  ==_self, Bool-cases, Option-cases, opt_eq, find, any, update_where, find-hit,
  find-update_where_hit, update_where_twice, ℤ, already_captured, bad_request, unauthorized,
  forbidden, not_found, conflict, rate_limited, Result, ok, err, Exec, pure, keep_if_ok, Run-cases,
  err-ok, ℕ, String, ◌≡◌, refl, sym, ap, ◌∙◌, subst, ◌⊎◌, inl, inr, true, Option, some, List, ◌∷◌,
  eq_refl,
}
use printvendo_backend.Payments.Models.{
  PaymentKind, print_order, wallet_topup, subscription, Payment, Refund, Books, is_payment,
  both_given,
}
use printvendo_backend.Payments.Charges.{
  is_captured, as_captured, claims_payment, as_failed, record_capture, record_failure,
}
use printvendo_backend.Payments.Refunds.{RazorpayGateway, RefundSink, given_back, issue}
use printvendo_backend.Payments.Webhook.External.{reported, Writes, issue-Writes}
use printvendo_backend.Payments.Webhook.{
  Event, payment_captured, payment_failed, refund_processed, Payload, Outcome, given_text,
  has_razorpay_order, has_razorpay_refund, external_refund, caught, Settlement, settle_kind, settle,
  record_external_refund, on_event,
}

module _ {G : Type 0} where
  -- What a captured payment means is done outside of the payments: orders, balances and
  -- subscriptions have rows of their own.
  abbrev pub KeepsPayments : Settlement G → Type 0
  KeepsPayments s =
      (p : Payment) (b : Books G)
      → ((s.settle_print_order p b).1.payments ≡ b.payments)
        × ((s.settle_wallet_topup p b).1.payments ≡ b.payments)
        × ((s.settle_subscription p b).1.payments ≡ b.payments)

  -- A request that was answered changes nothing when it is made again, at a later time.
  abbrev pub Settled : Exec (Books G) Outcome → Exec (Books G) Outcome → Books G → Type 0
  Settled m again b =
      (b' : Books G) (o : Outcome)
      → keep_if_ok b (m b) ≡ (ok o, b')
      → (keep_if_ok b' (again b')).1 ≡ b'

  pub kept : (b : Books G) (r : Result Outcome × Books G) → r.1 ≡ b → (keep_if_ok b r).1 ≡ b
  kept b (ok o, b') h = h
  kept b (err e, b') h = refl

  -- A request that writes nothing at either time.
  pub unchanged :
      (m again : Exec (Books G) Outcome) (b : Books G)
      → (m b).1 ≡ b
      → (again b).1 ≡ b
      → Settled m again b
  unchanged m again b h k b' o e =
      let same : b ≡ b' = sym (kept b (m b) h) ∙ ap (λ z. z.1) e in
      kept b' (again b') (subst (λ z. (again z).1 ≡ z) same k)

  pub caught_state : (r : Result Refund × Books G) → (caught r).1 ≡ r.1
  caught_state (ok r, b) = refl
  caught_state (err (bad_request d), b) = refl
  caught_state (err (conflict d), b) = refl
  caught_state (err (unauthorized d), b) = refl
  caught_state (err (forbidden d), b) = refl
  caught_state (err (not_found d), b) = refl
  caught_state (err (rate_limited n), b) = refl

known_refund :
    (id : String) (r : Refund) (rs : List Refund)
    → r.razorpay_refund_id ≡ some id
    → any (has_razorpay_refund id) (r ∷ rs) ≡ true
known_refund id r rs h = rw (h, eq_refl id) refl

module _ {G : Type 0} (razorpay : RazorpayGateway G) (sink : RefundSink G)
    (settlement : Settlement G) (settles : KeepsPayments settlement) (d : Payload)
    (order_id id : String) (now later : ℕ) (account : Option ℕ) where
  -- The payment is still found, as the account's own, and the event, when it comes later, does nothing
  -- more to it.
  pub record IsRepeat (e : Event) (b : Books G) : Type 0 where
    pub payment : Payment
    pub found : find (has_razorpay_order order_id) b.payments ≡ some payment
    pub own : opt_eq payment.collecting_user_id account ≡ true
    pub nothing_more : (on_event razorpay sink settlement e d id later payment b).1 ≡ b

  abbrev pub Repeats : Event → Payment → Books G → Type 0
  Repeats e p b =
      (b' : Books G) (o : Outcome)
      → on_event razorpay sink settlement e d id now p b ≡ (ok o, b')
      → ((b' ≡ b) × ((on_event razorpay sink settlement e d id later p b).1 ≡ b)) ⊎ IsRepeat e b'

  module _ (p : Payment) (b : Books G)
      (found : find (has_razorpay_order order_id) b.payments ≡ some p)
      (own : opt_eq p.collecting_user_id account ≡ true) where
    -- The payment's row is found once it is written, if it keeps its order and its account.
    found_again :
        (p' : Payment)
        → p'.razorpay_order_id ≡ p.razorpay_order_id
        → find (has_razorpay_order order_id) (update_where (is_payment p.id) (λ _. p') b.payments)
          ≡ some p'
    found_again p' h =
        find-update_where_hit (has_razorpay_order order_id) (is_payment p.id) p p' b.payments found
          (==_self p.id)
          (ap (λ z. both_given z (some order_id)) h
            ∙ find-hit (has_razorpay_order order_id) b.payments p found)

    external-Repeats :
        (rid : String) (paise : ℤ) (b' : Books G) (o : Outcome)
        → record_external_refund razorpay sink settlement p (some rid) (some paise) b ≡ (ok o, b')
        → (b' ≡ b)
          ⊎ ((find (has_razorpay_order order_id) b'.payments
                ≡ some (given_back p (reported rid paise)))
              × ((record_external_refund razorpay sink settlement
                    (given_back p (reported rid paise))
                    (some rid)
                    (some paise)
                    b').1
                  ≡ b'))
    unfolding record_external_refund
    external-Repeats rid paise b' o h =
        elim (Bool-cases (any (has_razorpay_refund rid) b.refunds)) [
          | inl known ↦ inl (sym (ap (λ z. z.1) (rw known at h)))
          | inr new ↦
              let reached =
                sym (caught_state (issue razorpay sink p (external_refund rid paise) b))
                ∙ ap (λ z. z.1) (rw new at h) in
              elim (subst (Writes p rid paise b) reached
                (issue-Writes razorpay sink p rid paise b)) [
                  | inl same ↦ inl same
                  | inr w ↦ inr (
                    ap (find (has_razorpay_order order_id)) w.payments
                        ∙ found_again (given_back p (reported rid paise)) refl,
                    rw (w.refunds, eq_refl rid) refl,
                  )
                ]
        ]

    as_answered : (o o' : Outcome) (b' : Books G) → pure o b ≡ (ok o', b') → b' ≡ b
    as_answered o o' b' h = sym (ap (λ z. z.1) h)

    refund-Repeats : Repeats refund_processed p b
    unfolding on_event
    refund-Repeats b' o h = elim (Option-cases (given_text d.refund_id)) [
      | inl missing ↦ inl (
        sym (ap (λ z. z.1) (rw (missing, record_external_refund) at h)),
        rw (missing, record_external_refund) refl,
      )
      | inr (rid, r) ↦ elim (Option-cases d.refund_paise) [
        | inl missing ↦ inl (
          sym (ap (λ z. z.1) (rw (r, missing, record_external_refund) at h)),
          rw (r, missing, record_external_refund) refl,
        )
        | inr (paise, a) ↦ elim (external-Repeats rid paise b' o (rw (r, a) at h)) [
          | inl same ↦ inl (same, ap (λ z. z.1) h ∙ same)
          | inr w ↦ inr (record {
            payment = given_back p (reported rid paise);
            found = w.0;
            own = own;
            nothing_more = rw (on_event, r, a) w.1;
          })
        ]
      ]
    ]

    failure-Repeats : Repeats payment_failed p b
    unfolding on_event record_failure
    failure-Repeats b' o h = elim (Bool-cases (is_captured p.status)) [
      | inl taken ↦ inl (sym (ap (λ z. z.1) (rw taken at h)), rw taken refl)
      | inr open_row ↦
          let failed_row = as_failed d.error_description p in
          let written = update_where (is_payment p.id) (λ _. failed_row) b.payments in
          let reached : record b { payments = written } ≡ b' = ap (λ z. z.1) (rw open_row at h) in
          inr (
            subst (IsRepeat payment_failed) reached (record {
              payment = failed_row;
              found = found_again failed_row refl;
              own = own;
              nothing_more =
                  ap (λ ps. record b { payments = ps })
                    (update_where_twice (is_payment p.id) failed_row b.payments (==_self p.id));
            }))
    ]

    settle_kind-payments :
        (k : PaymentKind) (q : Payment) (c : Books G)
        → (settle_kind razorpay sink settlement k q c).1.payments ≡ c.payments
    settle_kind-payments print_order q c = (settles q c).0
    settle_kind-payments wallet_topup q c = (settles q c).1
    settle_kind-payments subscription q c = (settles q c).2

    capture-Repeats : Repeats payment_captured p b
    unfolding on_event record_capture settle
    capture-Repeats b' o h = elim (Bool-cases (is_captured p.status)) [
      | inl taken ↦ inl (sym (ap (λ z. z.1) (rw taken at h)), rw taken refl)
      | inr open_row ↦ elim (Bool-cases (any (claims_payment p.id id) b.payments)) [
        | inl elsewhere ↦
            err-ok (conflict already_captured) o b b' (rw (open_row, open_row, elsewhere) at h)
        | inr free ↦
            let row = as_captured id now p in
            let saved = record b {
              payments = update_where (is_payment p.id) (λ _. row) b.payments;
            } in
            elim (Run-cases (settle razorpay sink settlement row saved)) [
              | inr (e, c, r) ↦ err-ok e o c b' (rw (open_row, open_row, free, r) at h)
              | inl (_, c, r) ↦
                  let reached : c ≡ b' = ap (λ z. z.1) (rw (open_row, open_row, free, r) at h) in
                  inr (
                    subst (IsRepeat payment_captured) reached (record {
                      payment = row;
                      found =
                          ap (λ z. find (has_razorpay_order order_id) z.1.payments) (sym r)
                          ∙ ap (find (has_razorpay_order order_id))
                              (settle_kind-payments row.kind row saved)
                          ∙ found_again row refl;
                      own = own;
                      nothing_more = refl;
                    }))
            ]
      ]
    ]

    pub on_event-Repeats : (e : Event) → Repeats e p b
    on_event-Repeats refund_processed b' o h = refund-Repeats b' o h
    on_event-Repeats payment_failed b' o h = failure-Repeats b' o h
    on_event-Repeats payment_captured b' o h = capture-Repeats b' o h
