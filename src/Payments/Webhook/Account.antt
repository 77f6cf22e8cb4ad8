-- ===== src/Payments/Webhook/Account.antt =====
-- The payments that a delivery may act on: those of the account at whose URL it arrived.
use printvendo_backend.Prelude.{
  Bool-cases, Option-cases, get_or, opt_eq, find, ℕ, String, ◌≡◌, refl, sym, ap, ◌∙◌, ◌⊎◌, inl, inr,
  true, false, Option, none, some,
}
use printvendo_backend.Payments.Models.{Payment, Books}
use printvendo_backend.Payments.Refunds.{RazorpayGateway, RefundSink}
use printvendo_backend.Payments.Webhook.{
  Event, Payload, Delivery, given_text, has_razorpay_order, Settlement, on_event, with_ids,
  with_event, handle_webhook,
}

some-injective : {A : Type 0} (a b : A) → some a ≡ some b → a ≡ b
some-injective a b p = ap (λ o. get_or o a) p

module _ {G : Type 0} (razorpay : RazorpayGateway G) (sink : RefundSink G)
    (settlement : Settlement G) where
  -- The payment of the account that two ids of a payload name.
  record Named (account : Option ℕ) (b : Books G) (o i : Option String) : Type 0 where
    order_id : String
    order_given : o ≡ some order_id
    payment_id : String
    payment_given : i ≡ some payment_id
    payment : Payment
    found : find (has_razorpay_order order_id) b.payments ≡ some payment
    own : opt_eq payment.collecting_user_id account ≡ true

  -- A verified delivery of an event that is handled, which names a payment of the account.
  pub record IsOwn (d : Delivery) (b : Books G) : Type 0 where
    pub verified : d.verified ≡ true
    pub payload : Payload
    pub carried : d.payload ≡ some payload
    pub event : Event
    pub happened : payload.event ≡ some event
    pub order_id : String
    pub order_given : given_text payload.order_id ≡ some order_id
    pub payment_id : String
    pub payment_given : given_text payload.payment_id ≡ some payment_id
    pub payment : Payment
    pub found : find (has_razorpay_order order_id) b.payments ≡ some payment
    pub own : opt_eq payment.collecting_user_id d.collecting_user_id ≡ true

  Named-of :
      (d : Delivery) (b : Books G) (pl : Payload) (w : IsOwn d b)
      → w.payload ≡ pl
      → Named d.collecting_user_id b (given_text pl.order_id) (given_text pl.payment_id)
  Named-of d b pl w same = record {
    order_id = w.order_id;
    order_given = ap (λ z. given_text z.order_id) (sym same) ∙ w.order_given;
    payment_id = w.payment_id;
    payment_given = ap (λ z. given_text z.payment_id) (sym same) ∙ w.payment_given;
    payment = w.payment;
    found = w.found;
    own = w.own;
  }

  -- What two ids do: nothing when they name no payment of the account, or else the event of the
  -- payment that they name.
  abbrev Reaches : Event → Payload → ℕ → Option ℕ → Option String → Option String → Books G → Type 0
  Reaches e pl now account o i b =
      let r = with_ids razorpay sink settlement e pl now account o i b in
      ((Named account b o i → ⊥) × (r.1 ≡ b))
      ⊎ ((w : Named account b o i) × (r
            ≡ on_event razorpay sink settlement e pl w.payment_id now w.payment b))

  with_ids-Reaches :
      (e : Event) (pl : Payload) (now : ℕ) (account : Option ℕ) (o i : Option String) (b : Books G)
      → Reaches e pl now account o i b
  unfolding on_event
  with_ids-Reaches e pl now account (some o) (some i) b =
      elim (Option-cases (find (has_razorpay_order o) b.payments)) [
        | inl unknown ↦ inl (
          λ w.
              let same : find (has_razorpay_order o) b.payments ≡ some w.payment =
                ap (λ z. find (has_razorpay_order z) b.payments)
                  (some-injective o w.order_id w.order_given)
                ∙ w.found in
              cc,
          rw unknown refl,
        )
        | inr (p, found) ↦ elim (Bool-cases (opt_eq p.collecting_user_id account)) [
          | inr other ↦ inl (
            λ w.
                let same : find (has_razorpay_order o) b.payments ≡ some w.payment =
                  ap (λ z. find (has_razorpay_order z) b.payments)
                    (some-injective o w.order_id w.order_given)
                  ∙ w.found in
                let payment : p ≡ w.payment = some-injective p w.payment (sym found ∙ same) in
                let no : false ≡ true =
                  sym other ∙ ap (λ z. opt_eq z.collecting_user_id account) payment ∙ w.own in
                cc,
            rw (found, other) refl,
          )
          | inl own ↦ inr (
            record {
              order_id = o;
              order_given = refl;
              payment_id = i;
              payment_given = refl;
              payment = p;
              found = found;
              own = own;
            },
            rw (found, own) refl,
          )
        ]
      ]
  with_ids-Reaches e pl now account none i b = inl (λ w. let no = w.order_given in cc, refl)
  with_ids-Reaches e pl now account (some o) none b =
      inl (λ w. let no = w.payment_given in cc, refl)

  abbrev Answers : Delivery → Books G → Type 0
  Answers d b =
      let r = handle_webhook razorpay sink settlement d b in
      ((IsOwn d b → ⊥) × (r.1 ≡ b))
      ⊎ ((w : IsOwn d b) × (r
            ≡ on_event razorpay sink settlement w.event w.payload w.payment_id d.arrived_at
                w.payment b))

  with_event-Answers :
      (d : Delivery) (b : Books G) (pl : Payload) (e : Option Event)
      → d.verified ≡ true
      → d.payload ≡ some pl
      → pl.event ≡ e
      → Answers d b
  unfolding handle_webhook on_event
  with_event-Answers d b pl none verified carried silent = inl (
    λ w.
        let same : w.payload ≡ pl = some-injective w.payload pl (sym w.carried ∙ carried) in
        let no : none ≡ some w.event = sym silent ∙ ap (λ z. z.event) (sym same) ∙ w.happened in cc,
    rw (verified, carried)
        (ap (λ x. (with_event razorpay sink settlement x pl d.arrived_at d.collecting_user_id b).1)
          silent),
  )
  with_event-Answers d b pl (some e) verified carried happened =
      let run : handle_webhook razorpay sink settlement d b
          ≡ with_ids razorpay sink settlement e pl d.arrived_at d.collecting_user_id
              (given_text pl.order_id) (given_text pl.payment_id) b =
        rw (verified, carried)
          (ap (λ x. with_event razorpay sink settlement x pl d.arrived_at d.collecting_user_id b)
            happened) in
      elim (with_ids-Reaches e pl d.arrived_at d.collecting_user_id (given_text pl.order_id)
        (given_text pl.payment_id) b) [
          | inl (unnamed, same) ↦ inl (
            λ w.
                unnamed (Named-of d b pl w (some-injective w.payload pl (sym w.carried ∙ carried))),
            ap (λ z. z.1) run ∙ same,
          )
          | inr (n, does) ↦ inr (
            record {
              verified = verified;
              payload = pl;
              carried = carried;
              event = e;
              happened = happened;
              order_id = n.order_id;
              order_given = n.order_given;
              payment_id = n.payment_id;
              payment_given = n.payment_given;
              payment = n.payment;
              found = n.found;
              own = n.own;
            },
            run ∙ does,
          )
        ]

  -- When a delivery's signature verifies, its payload names an event that is handled, an order and a
  -- payment at Razorpay, and the payment that is found by that order is one that the account of the
  -- URL collected, then the delivery does and answers just what that event does to that payment, with
  -- the payment's id that it names. Any other delivery changes nothing at all, whether it is answered
  -- or refused.
  pub handle_webhook-IsOwn :
      (d : Delivery) (b : Books G)
      → let r = handle_webhook razorpay sink settlement d b in
        ((IsOwn d b → ⊥) × (r.1 ≡ b))
        ⊎ ((w : IsOwn d b) × (r
              ≡ on_event razorpay sink settlement w.event w.payload w.payment_id d.arrived_at
                  w.payment b))
  unfolding handle_webhook on_event
  handle_webhook-IsOwn d b = elim (Bool-cases d.verified) [
    | inr forged ↦ inl (λ w. let no = sym forged ∙ w.verified in cc, rw forged refl)
    | inl verified ↦ elim (Option-cases d.payload) [
      | inl unreadable ↦ inl (
        λ w. let no : none ≡ some w.payload = sym unreadable ∙ w.carried in cc,
        rw (verified, unreadable) refl,
      )
      | inr (pl, carried) ↦ with_event-Answers d b pl pl.event verified carried refl
    ]
  ]
