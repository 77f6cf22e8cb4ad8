-- ===== src/Payments/Refunds.antt =====
-- app/modules/payments/refunds.py: money given back, in whole or in part.
-- What Razorpay answers, and what a refund means to an order, are seams of the model. The reason is
-- taken as it is; the code strips it and cuts it at 300 characters.
pub mod Given
pub mod Bounds
pub mod Retry
pub mod Examples
use printvendo_backend.Prelude.{
  ◌==◌, if◌then◌else◌, is_some, find, any, ℤ, pos, ◌+ℤ◌, ◌-ℤ◌, ltb_ℤ, leb_ℤ, must_be_positive,
  illegal_destination, nothing_to_reverse, refund_exceeds, not_captured, refund_recorded,
  no_gateway, no_credentials, key_elsewhere, no_such_payment, bad_request, not_found, conflict,
  Result, ok, err, Exec, pure, lift, transaction, ◌>>=◌, ◌>>◌, ℕ, String, str_append, Bool, true,
  false, not, ◌||◌, Option, none, some, List, [], ◌∷◌, str_eq,
}
use printvendo_backend.Money.{Decimal, Money, two_places, as_money}
use printvendo_backend.Wallet.{refund, WalletEntry, Wallets, credit}
use printvendo_backend.Payments.Charges.{record_capture, record_failure}
use printvendo_backend.Payments.Models.{
  PaymentStatus, captured, refunded, partially_refunded, Payment, RefundDestination, to_source,
  to_wallet, Refund, Books, is_payment, both_given, save_payment,
}

-- `RazorpayGateway.refund`, with the collecting account's credentials: the payment at Razorpay, the
-- paise and the key go in, and Razorpay's id of the refund comes out.
pub record RazorpayGateway (G : Type 0) : Type 0 where
  pub send_refund : String → ℤ → String → Exec G String

-- `RefundSink`
pub record RefundSink (G : Type 0) : Type 0 where
  pub on_refund : Payment → Refund → Exec G (Unit {0})

-- What a caller asks for. `connected` is whether a gateway and credentials are given.
pub record Wanted : Type 0 where
  pub amount : Decimal
  pub destination : RefundDestination
  pub idempotency_key : String
  pub actor_user_id : Option ℕ
  pub reason : Option String
  pub external_refund_id : Option String
  pub has_gateway : Bool
  pub has_credentials : Bool

-- REFUNDABLE
abbrev pub is_refundable : PaymentStatus → Bool
is_refundable captured = true
is_refundable partially_refunded = true
is_refundable _ = false

-- `_may_go_to_wallet`
abbrev pub may_go_to_wallet : Payment → Bool
may_go_to_wallet p = not (is_some p.collecting_user_id)

-- `_may_go_to_source`
abbrev pub may_go_to_source : Payment → Bool
may_go_to_source p = is_some p.razorpay_payment_id

abbrev pub check_destination : Payment → RefundDestination → Result (Unit {0})
check_destination p to_wallet =
    if may_go_to_wallet p then ok tt else err (bad_request illegal_destination)
check_destination p to_source =
    if may_go_to_source p then ok tt else err (bad_request nothing_to_reverse)

abbrev check_available : Payment → Money → Result (Unit {0}) → Result (Unit {0})
check_available p amount (err e) = err e
check_available p amount (ok u) =
    if ltb_ℤ (p.amount_inr -ℤ p.refunded_inr) amount then err (conflict refund_exceeds) else ok u

-- The rules that a refund of `amount` must meet.
unfoldable pub check_refund : Payment → Money → RefundDestination → Result (Unit {0})
check_refund p amount destination =
    if leb_ℤ amount (pos 0)
    then err (bad_request must_be_positive)
    else if not (is_refundable p.status)
    then err (conflict not_captured)
    else check_available p amount (check_destination p destination)

abbrev pub has_key : String → Refund → Bool
has_key key r = str_eq r.idempotency_key key

-- The unique columns, the key and Razorpay's id.
abbrev pub same_refund : Refund → Refund → Bool
same_refund r old =
    has_key r.idempotency_key old || both_given old.razorpay_refund_id r.razorpay_refund_id

-- The payment once `amount` has been given back.
abbrev pub given_back : Payment → Money → Payment
given_back p amount =
    let total = p.refunded_inr +ℤ amount in
    record p {
      refunded_inr = total;
      status = if leb_ℤ p.amount_inr total then refunded else partially_refunded;
    }

abbrev pub refund_row : Payment → Money → Wanted → Option String → Refund
refund_row p amount w id = record {
  payment_id = p.id;
  amount_inr = amount;
  destination = w.destination;
  idempotency_key = w.idempotency_key;
  razorpay_refund_id = id;
  actor_user_id = w.actor_user_id;
  reason = w.reason;
}

module _ {G : Type 0} where
  abbrev pub on_payment :
      Option Payment → (Payment → Exec (Books G) (Unit {0})) → Exec (Books G) (Unit {0})
  on_payment none act b = (err (not_found no_such_payment), b)
  on_payment (some p) act b = act p b

  abbrev reached : Books G → Result String × G → Result (Option String) × Books G
  reached b (ok id, g) = (ok (some id), record b { outside = g })
  reached b (err e, g) = (err e, record b { outside = g })

  abbrev heard : Books G → Result (Unit {0}) × G → Result (Unit {0}) × Books G
  heard b (r, g) = (r, record b { outside = g })

  abbrev credited : Books G → Result WalletEntry × Wallets → Result (Unit {0}) × Books G
  credited b (ok entry, w) = (ok tt, record b { wallets = w })
  credited b (err e, w) = (err e, record b { wallets = w })

  abbrev pub insert_refund : Refund → Exec (Books G) (Unit {0})
  insert_refund r b =
      if any (same_refund r) b.refunds
      then (err (conflict refund_recorded), b)
      else (ok tt, record b { refunds = r ∷ b.refunds })

-- What happens to payments that were opened: refunds, captures and failures, in any order, each on
-- the row as it is then, and in a transaction.
pub data PaymentEvent : Type 0 where
  gives_back : ℕ → Wanted → PaymentEvent
  captures : ℕ → String → ℕ → PaymentEvent
  fails : ℕ → Option String → PaymentEvent

abbrev pub about : PaymentEvent → ℕ
about (gives_back i w) = i
about (captures i id now) = i
about (fails i reason) = i

module _ {G : Type 0} (razorpay : RazorpayGateway G) (sink : RefundSink G) where
  abbrev ask_razorpay : Option String → Money → String → Exec (Books G) (Option String)
  ask_razorpay none amount key b = (ok none, b)
  ask_razorpay (some id) amount key b = reached b (razorpay.send_refund id amount key b.outside)

  -- The gateway is asked only for a refund to the source that has not happened elsewhere.
  unfoldable pub refund_id : Payment → Money → Wanted → Exec (Books G) (Option String)
  refund_id p amount w b = elim w.destination [
    | to_wallet ↦ (ok w.external_refund_id, b)
    | to_source ↦ elim w.external_refund_id [
      | some id ↦ (ok (some id), b)
      | none ↦
          if not w.has_gateway
          then (err (conflict no_gateway), b)
          else if not w.has_credentials
          then (err (conflict no_credentials), b)
          else ask_razorpay p.razorpay_payment_id amount w.idempotency_key b
    ]
  ]

  unfoldable pub pay_back : Payment → Money → Wanted → Exec (Books G) (Unit {0})
  unfolding credit
  pay_back p amount w b = elim w.destination [
    | to_source ↦ (ok tt, b)
    | to_wallet ↦ credited b (
        credit p.user_id (two_places amount) refund (str_append "refund:" w.idempotency_key)
          w.reason b.wallets)
  ]

  -- The rows are written, the balance is credited, the order hears of it.
  unfoldable pub write_refund : Payment → Money → Wanted → Option String → Exec (Books G) Refund
  unfolding pay_back
  write_refund p amount w id = do
    insert_refund (refund_row p amount w id)
    save_payment (given_back p amount)
    pay_back p amount w
    λ b. heard b (sink.on_refund (given_back p amount) (refund_row p amount w id) b.outside)
    pure (refund_row p amount w id)

  abbrev refund_or_known : Option Refund → Payment → Wanted → Exec (Books G) Refund
  unfolding check_refund refund_id write_refund as_money
  refund_or_known (some old) p w b =
      if old.payment_id == p.id then (ok old, b) else (err (conflict key_elsewhere), b)
  refund_or_known none p w b =
      (lift (check_refund p (as_money w.amount) w.destination) >>= λ _.
      refund_id p (as_money w.amount) w >>= λ id. write_refund p (as_money w.amount) w id)
        b

  -- `refund`: the key is looked up first.
  unfoldable pub issue : Payment → Wanted → Exec (Books G) Refund
  unfolding refund_or_known
  issue p w b = refund_or_known (find (has_key w.idempotency_key) b.refunds) p w b

  unfoldable pub act_on : PaymentEvent → Payment → Exec (Books G) (Unit {0})
  unfolding issue record_capture record_failure
  act_on (gives_back i w) p = issue p w >> pure tt
  act_on (captures i id now) p = record_capture p id now >> pure tt
  act_on (fails i reason) p = record_failure p reason >> pure tt

  unfoldable pub happen : PaymentEvent → Books G → Books G
  unfolding act_on
  happen e b = (transaction (on_payment (find (is_payment (about e)) b.payments) (act_on e)) b).1

  unfoldable pub run_payments : List PaymentEvent → Books G → Books G
  unfolding happen
  run_payments [] b = b
  run_payments (e ∷ es) b = run_payments es (happen e b)
