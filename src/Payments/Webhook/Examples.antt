-- ===== src/Payments/Webhook/Examples.antt =====
-- Tests and instances of the theorems on deliveries.
use printvendo_backend.Prelude.{
  ℤ, pos, ◌+ℤ◌, ◌-ℤ◌, ok, ◌≡◌, refl, ◌⊎◌, true, none, some, [], ◌∷◌, map,
}
use printvendo_backend.Money.{as_money, from_paise}
use printvendo_backend.Payments.Models.{print_order, wallet_topup, subscription, created, Books}
use printvendo_backend.Payments.Charges.{record_capture}
use printvendo_backend.Payments.Refunds.{issue}
use printvendo_backend.Payments.Refunds.Bounds.{AreBooked}
use printvendo_backend.Payments.Refunds.Examples.{
  counting, deaf, paid_order, one_payment, one_payment-AreBooked,
}
use printvendo_backend.Payments.Webhook.{
  Event, payment_captured, refund_processed, Payload, Delivery, captured_and_settled,
  external_refund, Settlement, settle, record_external_refund, on_event, handle_webhook, deliver,
}
use printvendo_backend.Payments.Webhook.Account.{IsOwn, handle_webhook-IsOwn}
use printvendo_backend.Payments.Webhook.Booked.{SettlesBooked, deliver-AreBooked}
use printvendo_backend.Payments.Webhook.Repeats.{KeepsPayments}
use printvendo_backend.Payments.Webhook.Redelivery.{deliver_again}

-- Counts the orders that were settled.
abbrev tallying : Settlement ℤ
tallying = record {
  settle_print_order = λ p b. (ok tt, record b { outside = b.outside +ℤ pos 1 });
  settle_wallet_topup = λ p b. (ok tt, b);
  settle_subscription = λ p b. (ok tt, b);
}

abbrev waiting : Books ℤ
waiting = record one_payment {
  payments = record paid_order { status = created; razorpay_payment_id = none } ∷ [];
}

abbrev about_order : Event → Payload
about_order e = record {
  event = some e;
  order_id = some "order_1";
  payment_id = some "pay_1";
  error_description = none;
  refund_id = some "rfnd_9";
  refund_paise = some (pos 1500);
}

abbrev arrives : Event → Delivery
arrives e = record {
  verified = true;
  payload = some (about_order e);
  collecting_user_id = none;
  arrived_at = 600;
}

-- Captured once, and settled once.
captured_once :
    (deliver counting deaf tallying
      (arrives payment_captured)
      (deliver counting deaf tallying (arrives payment_captured) waiting).1).1.outside
    ≡ pos 1
unfolding deliver handle_webhook on_event record_capture settle ◌+ℤ◌
captured_once = refl

-- Fifteen rupees given back at the dashboard.
refund_heard :
    map
      (λ p. p.refunded_inr)
      (deliver counting deaf tallying (arrives refund_processed) one_payment).1.payments
    ≡ pos 1500 ∷ []
unfolding deliver handle_webhook on_event record_external_refund external_refund from_paise as_money
    issue ◌+ℤ◌ ◌-ℤ◌
refund_heard = refl

tallying-KeepsPayments : KeepsPayments tallying
tallying-KeepsPayments p b = (refl, refl, refl)

tallying-SettlesBooked : SettlesBooked counting deaf tallying
tallying-SettlesBooked print_order p b h = h
tallying-SettlesBooked wallet_topup p b h = h
tallying-SettlesBooked subscription p b h = h

deliver_again_example :
    let b' = (deliver counting deaf tallying (arrives payment_captured) waiting).1 in
    (deliver counting deaf tallying (record (arrives payment_captured) { arrived_at = 900 }) b').1
    ≡ b'
unfolding deliver handle_webhook on_event record_capture settle ◌+ℤ◌
deliver_again_example =
    deliver_again counting deaf tallying (arrives payment_captured) 900 waiting
      (deliver counting deaf tallying (arrives payment_captured) waiting).1 captured_and_settled
      tallying-KeepsPayments refl

deliver-AreBooked_example :
    AreBooked (deliver counting deaf tallying (arrives refund_processed) one_payment).1
deliver-AreBooked_example =
    deliver-AreBooked counting deaf tallying (arrives refund_processed) one_payment
      tallying-SettlesBooked one_payment-AreBooked

handle_webhook-IsOwn_example :
    let r = handle_webhook counting deaf tallying (arrives refund_processed) one_payment in
    ((IsOwn counting deaf tallying (arrives refund_processed) one_payment → ⊥)
      × (r.1 ≡ one_payment))
    ⊎ ((w : IsOwn counting deaf tallying (arrives refund_processed) one_payment) × (r
          ≡ on_event counting deaf tallying w.event w.payload w.payment_id 600 w.payment
              one_payment))
handle_webhook-IsOwn_example =
    handle_webhook-IsOwn counting deaf tallying (arrives refund_processed) one_payment
