-- ===== src/Payments/Webhook/Booked.antt =====
-- What deliveries do to the refunds of the books.
use printvendo_backend.Prelude.{
  Bool-cases, any, update_where, find-All, ℤ, Result, ok, err, keep_if_ok, Run-cases, ℕ, String,
  ◌≡◌, refl, sym, subst, inl, inr, Option, none, some,
}
use printvendo_backend.Payments.Models.{PaymentKind, Payment, Books, is_payment}
use printvendo_backend.Payments.Charges.{
  is_captured, as_captured, claims_payment, as_failed, record_capture, record_failure,
}
use printvendo_backend.Payments.Refunds.{RazorpayGateway, RefundSink, issue}
use printvendo_backend.Payments.Refunds.Given.{Gave, gave}
use printvendo_backend.Payments.Refunds.Bounds.{
  IsBooked, same_sums, AreBooked, Gave-AreBooked, save-AreBooked,
}
use printvendo_backend.Payments.Webhook.{
  Event, payment_captured, payment_failed, refund_processed, Payload, Delivery, Outcome, given_text,
  has_razorpay_order, has_razorpay_refund, external_refund, Settlement, settle_kind, settle,
  record_external_refund, on_event, handle_webhook, deliver,
}
use printvendo_backend.Payments.Webhook.External.{IsWritten, Writes, issue-Writes}
use printvendo_backend.Payments.Webhook.Account.{handle_webhook-IsOwn}
use printvendo_backend.Payments.Webhook.Repeats.{caught_state}

kept-AreBooked :
    {G : Type 0} (b : Books G) (r : Result Outcome × Books G)
    → AreBooked b
    → AreBooked r.1
    → AreBooked (keep_if_ok b r).1
kept-AreBooked b (ok o, c) h k = k
kept-AreBooked b (err e, c) h k = h

IsWritten-Gave :
    {G : Type 0} {b : Books G} {p : Payment} (id : String) (paise : ℤ) (b' : Books G)
    → IsWritten p id paise b b'
    → Gave b b' p (external_refund id paise)
unfolding external_refund
IsWritten-Gave id paise b' w = gave (some id) w.allowed w.fresh w.payments w.refunds

module _ {G : Type 0} (razorpay : RazorpayGateway G) (sink : RefundSink G)
    (settlement : Settlement G) where
  -- Settling a captured payment keeps what is given back within what was paid.
  abbrev pub SettlesBooked : Type 0
  SettlesBooked =
      (k : PaymentKind) (p : Payment) (b : Books G)
      → AreBooked b
      → AreBooked (settle_kind razorpay sink settlement k p b).1

  module _ (p : Payment) (b : Books G) (own : IsBooked b.refunds p) (booked : AreBooked b) where
    Writes-AreBooked :
        (id : String) (paise : ℤ) (b' : Books G) → Writes p id paise b b' → AreBooked b'
    Writes-AreBooked id paise b' (inl same) = subst (λ z. AreBooked z) (sym same) booked
    Writes-AreBooked id paise b' (inr w) =
        Gave-AreBooked {w = external_refund id paise} (IsWritten-Gave id paise b' w) own booked

    external-AreBooked :
        (rid : Option String) (paise : Option ℤ)
        → AreBooked (record_external_refund razorpay sink settlement p rid paise b).1
    unfolding record_external_refund
    external-AreBooked (some rid) (some paise) =
        elim (Bool-cases (any (has_razorpay_refund rid) b.refunds)) [
          | inl known ↦ rw known booked
          | inr new ↦
              rw (new, caught_state (issue razorpay sink p (external_refund rid paise) b))
                (Writes-AreBooked rid paise (issue razorpay sink p (external_refund rid paise) b).1
                  (issue-Writes razorpay sink p rid paise b))
        ]
    external-AreBooked none paise = booked
    external-AreBooked (some rid) none = booked

    saved-AreBooked :
        (p' : Payment)
        → p'.id ≡ p.id
        → p'.amount_inr ≡ p.amount_inr
        → p'.refunded_inr ≡ p.refunded_inr
        → AreBooked (record b { payments = update_where (is_payment p.id) (λ _. p') b.payments })
    saved-AreBooked p' i a r =
        save-AreBooked b (is_payment p.id) p' (same_sums b.refunds p p' i a r own) booked

    on_event-AreBooked :
        (e : Event) (d : Payload) (id : String) (now : ℕ)
        → SettlesBooked
        → AreBooked (on_event razorpay sink settlement e d id now p b).1
    unfolding on_event record_failure record_capture settle
    on_event-AreBooked refund_processed d id now s =
        external-AreBooked (given_text d.refund_id) d.refund_paise
    on_event-AreBooked payment_failed d id now s = elim (Bool-cases (is_captured p.status)) [
      | inl taken ↦ rw taken booked
      | inr open_row ↦
          rw open_row (saved-AreBooked (as_failed d.error_description p) refl refl refl)
    ]
    on_event-AreBooked payment_captured d id now s = elim (Bool-cases (is_captured p.status)) [
      | inl taken ↦ rw taken booked
      | inr open_row ↦ elim (Bool-cases (any (claims_payment p.id id) b.payments)) [
        | inl elsewhere ↦ rw (open_row, open_row, elsewhere) booked
        | inr free ↦
            let row = as_captured id now p in
            let saved = record b {
              payments = update_where (is_payment p.id) (λ _. row) b.payments;
            } in
            let after = s row.kind row saved (saved-AreBooked row refl refl refl) in
            elim (Run-cases (settle_kind razorpay sink settlement row.kind row saved)) [
              | inr (e, c, r) ↦
                  rw (open_row, open_row, free, r) (subst (λ z. AreBooked z.1) r after)
              | inl (_, c, r) ↦
                  rw (open_row, open_row, free, r) (subst (λ z. AreBooked z.1) r after)
            ]
      ]
    ]

  -- Whatever is delivered, verified or not, about any payment, and whatever Razorpay and the orders
  -- answer, with refunds that are refused half-way and swallowed: of each payment, what its refunds
  -- come to is still its `refunded_inr`, and never more than was paid, when that was so before, and
  -- settling a captured payment keeps it so.
  pub deliver-AreBooked :
      (d : Delivery) (b : Books G)
      → SettlesBooked
      → AreBooked b
      → AreBooked (deliver razorpay sink settlement d b).1
  unfolding deliver
  deliver-AreBooked d b s h = elim (handle_webhook-IsOwn razorpay sink settlement d b) [
    | inl (_, same) ↦
        kept-AreBooked b (handle_webhook razorpay sink settlement d b) h
          (subst (λ z. AreBooked z) (sym same) h)
    | inr (own, does) ↦
        let p = own.payment in
        let booked =
          (find-All (IsBooked b.refunds) (has_razorpay_order own.order_id) b.payments p h
            own.found).0 in
        kept-AreBooked b (handle_webhook razorpay sink settlement d b) h (
          subst (λ z. AreBooked z.1) (sym does)
            (on_event-AreBooked p b booked h own.event own.payload own.payment_id d.arrived_at s))
  ]
