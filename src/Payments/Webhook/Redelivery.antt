-- ===== src/Payments/Webhook/Redelivery.antt =====
-- A delivery that Razorpay sends again.
use printvendo_backend.Prelude.{
  Bool-cases, Option-cases, opt_eq, find, unverified_delivery, unauthorized, Result, ok, err, Exec,
  pure, keep_if_ok, err-ok, ℕ, String, ◌≡◌, refl, sym, ap, ◌∙◌, inl, inr, true, Option, none, some,
}
use printvendo_backend.Payments.Models.{Payment, Books}
use printvendo_backend.Payments.Refunds.{RazorpayGateway, RefundSink}
use printvendo_backend.Payments.Webhook.{
  Event, Payload, Delivery, Outcome, unreadable_body, event_not_handled, given_text,
  has_razorpay_order, Settlement, on_event, with_ids, with_event, read_body, handle_webhook,
  deliver,
}
use printvendo_backend.Payments.Webhook.Repeats.{
  KeepsPayments, Settled, kept, unchanged, on_event-Repeats,
}

module _ {G : Type 0} (razorpay : RazorpayGateway G) (sink : RefundSink G)
    (settlement : Settlement G) (settles : KeepsPayments settlement) (d : Payload)
    (order_id id : String) (account : Option ℕ) where
  abbrev lookup_run : ℕ → Event → Exec (Books G) Outcome
  unfolding on_event
  lookup_run now e = with_ids razorpay sink settlement e d now account (some order_id) (some id)

  -- The event of a payment that was found.
  own_event :
      (now : ℕ) (e : Event) (q : Payment) (c : Books G)
      → find (has_razorpay_order order_id) c.payments ≡ some q
      → opt_eq q.collecting_user_id account ≡ true
      → lookup_run now e c ≡ on_event razorpay sink settlement e d id now q c
  unfolding on_event
  own_event now e q c found own = rw (found, own) refl

  answered :
      (c : Books G) (r : Result Outcome × Books G) (o : Outcome) (b' : Books G)
      → keep_if_ok c r ≡ (ok o, b')
      → r ≡ (ok o, b')
  answered c (ok a, s) o b' h = h
  answered c (err e, s) o b' h = err-ok e o c b' h

  lookup_run-Settled :
      (now later : ℕ) (e : Event) (b : Books G) → Settled (lookup_run now e) (lookup_run later e) b
  unfolding on_event
  lookup_run-Settled now later e b =
      elim (Option-cases (find (has_razorpay_order order_id) b.payments)) [
        | inl unknown ↦
            unchanged (lookup_run now e) (lookup_run later e) b (rw unknown refl) (rw unknown refl)
        | inr (p, found) ↦ elim (Bool-cases (opt_eq p.collecting_user_id account)) [
          | inr other ↦
              unchanged (lookup_run now e) (lookup_run later e) b (rw (found, other) refl)
                (rw (found, other) refl)
          | inl own ↦ λ b' o h.
              let run =
                sym (own_event now e p b found own) ∙ answered b (lookup_run now e b) o b' h in
              elim (on_event-Repeats razorpay sink settlement settles d order_id id now later
                account p b found own e b' o run) [
                  | inl same ↦
                      unchanged (lookup_run now e) (lookup_run later e) b
                        (ap (λ z. z.1) (own_event now e p b found own ∙ run) ∙ same.0)
                        (ap (λ z. z.1) (own_event later e p b found own) ∙ same.1) b' o h
                  | inr again ↦ kept b' (lookup_run later e b') (
                      ap (λ z. z.1) (own_event later e again.payment b' again.found again.own)
                      ∙ again.nothing_more)
                ]
        ]
      ]

module _ {G : Type 0} (razorpay : RazorpayGateway G) (sink : RefundSink G)
    (settlement : Settlement G) (settles : KeepsPayments settlement) (now later : ℕ)
    (account : Option ℕ) where
  with_ids-Settled :
      (e : Event) (d : Payload) (o i : Option String) (b : Books G)
      → Settled
          (with_ids razorpay sink settlement e d now account o i)
          (with_ids razorpay sink settlement e d later account o i)
          b
  unfolding on_event
  with_ids-Settled e d (some o) (some i) b =
      lookup_run-Settled razorpay sink settlement settles d o i account now later e b
  with_ids-Settled e d none i b =
      unchanged (with_ids razorpay sink settlement e d now account none i)
        (with_ids razorpay sink settlement e d later account none i) b refl refl
  with_ids-Settled e d (some o) none b =
      unchanged (with_ids razorpay sink settlement e d now account (some o) none)
        (with_ids razorpay sink settlement e d later account (some o) none) b refl refl

  with_event-Settled :
      (e : Option Event) (d : Payload) (b : Books G)
      → Settled
          (with_event razorpay sink settlement e d now account)
          (with_event razorpay sink settlement e d later account)
          b
  unfolding on_event
  with_event-Settled none d b =
      unchanged (pure event_not_handled) (pure event_not_handled) b refl refl
  with_event-Settled (some e) d b =
      with_ids-Settled e d (given_text d.order_id) (given_text d.payment_id) b

  pub read_body-Settled :
      (body : Option Payload) (b : Books G)
      → Settled
          (read_body razorpay sink settlement body now account)
          (read_body razorpay sink settlement body later account)
          b
  unfolding on_event
  read_body-Settled none b = unchanged (pure unreadable_body) (pure unreadable_body) b refl refl
  read_body-Settled (some d) b = with_event-Settled d.event d b

module _ {G : Type 0} (razorpay : RazorpayGateway G) (sink : RefundSink G)
    (settlement : Settlement G) where
  -- When a delivery was answered, delivering it once more, at whatever moment it then arrives and
  -- with nothing else written to these tables in between, leaves
  -- the database as it is, whatever the event, and whether the first was handled, ignored, or a
  -- refund that could not be recorded: provided that settling a captured payment does not write to
  -- payments.
  pub deliver_again :
      (d : Delivery) (later : ℕ) (b b' : Books G) (o : Outcome)
      → KeepsPayments settlement
      → deliver razorpay sink settlement d b ≡ (ok o, b')
      → (deliver razorpay sink settlement (record d { arrived_at = later }) b').1 ≡ b'
  unfolding deliver handle_webhook on_event
  deliver_again d later b b' o k h = elim (Bool-cases d.verified) [
    | inr forged ↦ err-ok (unauthorized unverified_delivery) o b b' (rw forged at h)
    | inl verified ↦ rw verified (
        read_body-Settled razorpay sink settlement k d.arrived_at later d.collecting_user_id
          d.payload b b' o (rw verified at h))
  ]
