-- ===== src/Payments/Refunds/Examples.antt =====
-- Tests and instances of the theorems on refunds.
use printvendo_backend.Prelude.{
  ℤ, pos, ◌+ℤ◌, ◌-ℤ◌, ok, String, ◌≡◌, refl, true, none, some, List, [], ◌∷◌, map, arith,
}
use printvendo_backend.Money.{as_money}
use printvendo_backend.Wallet.{empty}
use printvendo_backend.Payments.Models.{
  print_order, platform_gateway, PaymentStatus, captured, failed, Payment, RefundDestination,
  to_source, to_wallet, Refund, Books,
}
use printvendo_backend.Payments.Charges.{record_capture, record_failure}
use printvendo_backend.Payments.Refunds.{
  RazorpayGateway, RefundSink, Wanted, refund_row, PaymentEvent, gives_back, captures, fails, issue,
  act_on, happen, run_payments,
}
use printvendo_backend.Payments.Refunds.Retry.{issue_again}
use printvendo_backend.Payments.Refunds.Bounds.{given_for, AreBooked, run_payments-AreBooked}

-- The outside counts the paise that Razorpay sent back.
abbrev pub counting : RazorpayGateway ℤ
counting = record { send_refund = λ id paise key sent. (ok "rfnd_1", sent +ℤ paise) }

abbrev pub deaf : RefundSink ℤ
deaf = record { on_refund = λ payment row sent. (ok tt, sent) }

abbrev pub paid_order : Payment
paid_order = record {
  id = 1;
  user_id = 7;
  kind = print_order;
  order_id = some 3;
  subscription_id = none;
  kiosk_id = some 7;
  source = platform_gateway;
  collecting_user_id = none;
  razorpay_order_id = some "order_1";
  razorpay_payment_id = some "pay_1";
  amount_inr = pos 5000;
  refunded_inr = pos 0;
  status = captured;
  failure_reason = none;
  captured_at = some 100;
}

abbrev pub one_payment : Books ℤ
one_payment = record {
  payments = paid_order ∷ [];
  refunds = [];
  wallets = empty;
  next_payment_id = 2;
  outside = pos 0;
}

abbrev twenty : String → RefundDestination → Wanted
twenty key destination = record {
  amount = record { coefficient = pos 20; places = 0 };
  destination = destination;
  idempotency_key = key;
  actor_user_id = none;
  reason = none;
  external_refund_id = none;
  has_gateway = true;
  has_credentials = true;
}

-- Twenty rupees to the card, the same again by a retry, twenty to the balance, and twenty too many.
abbrev requests : List PaymentEvent
requests =
    gives_back 1 (twenty "k1" to_source)
    ∷ gives_back 1 (twenty "k1" to_source)
    ∷ gives_back 1 (twenty "k2" to_wallet)
    ∷ gives_back 1 (twenty "k3" to_wallet)
    ∷ []

-- A late failure of a payment that was partly refunded is taken, and a late capture too.
abbrev late_failure : List PaymentEvent
late_failure = gives_back 1 (twenty "k1" to_source) ∷ fails 1 none ∷ []

abbrev statuses : Books ℤ → List PaymentStatus
statuses b = map (λ p. p.status) b.payments

late_failure_status : statuses (run_payments counting deaf late_failure one_payment) ≡ failed ∷ []
unfolding run_payments happen act_on issue record_failure as_money ◌+ℤ◌ ◌-ℤ◌
late_failure_status = refl

late_capture_status :
    statuses (
      run_payments counting deaf
        (gives_back 1 (twenty "k1" to_source) ∷ captures 1 "pay_1" 500 ∷ [])
        one_payment)
    ≡ captured ∷ []
unfolding run_payments happen act_on issue record_capture as_money ◌+ℤ◌ ◌-ℤ◌
late_capture_status = refl

pub one_payment-AreBooked : AreBooked one_payment
unfolding given_for
one_payment-AreBooked =
    (record { counted = refl; not_below = omega arith; not_above = omega arith }, tt)

run_payments-AreBooked_example : AreBooked (run_payments counting deaf requests one_payment)
run_payments-AreBooked_example =
    run_payments-AreBooked counting deaf requests one_payment one_payment-AreBooked

abbrev first_refund : Refund
first_refund = refund_row paid_order (pos 2000) (twenty "k1" to_source) (some "rfnd_1")

issue_again_example :
    let b' = (issue counting deaf paid_order (twenty "k1" to_source) one_payment).1 in
    issue counting deaf paid_order (twenty "k1" to_wallet) b' ≡ (ok first_refund, b')
unfolding issue as_money ◌+ℤ◌ ◌-ℤ◌
issue_again_example =
    issue_again counting deaf paid_order paid_order (twenty "k1" to_source) (twenty "k1" to_wallet)
      one_payment (issue counting deaf paid_order (twenty "k1" to_source) one_payment).1
      first_refund refl refl refl
