-- ===== src/Payments/Webhook.antt =====
-- app/modules/payments/webhook.py: what a Razorpay delivery does to the books.
-- Whether the signature verifies, and the fields that `json.loads` finds, are inputs; what a captured
-- payment means to the rest of the system is `Settlement`, a seam of the model.
pub mod Account
pub mod External
pub mod Repeats
pub mod Redelivery
pub mod Booked
mod Examples
use printvendo_backend.Prelude.{
  if◌then◌else◌, opt_eq, find, any, ℤ, unverified_delivery, wrong_account, bad_request,
  unauthorized, conflict, Result, ok, err, Exec, pure, raise, transaction, ◌>>=◌, ◌>>◌, ℕ, String,
  str_append, Bool, true, false, Option, none, some, str_eq,
}
use printvendo_backend.Money.{two_places, from_paise}
use printvendo_backend.Payments.Models.{
  PaymentKind, print_order, wallet_topup, subscription, Payment, to_source, Refund, Books,
  both_given,
}
use printvendo_backend.Payments.Charges.{is_captured, record_capture, record_failure}
use printvendo_backend.Payments.Refunds.{RazorpayGateway, RefundSink, Wanted, issue}

-- HANDLED_EVENTS
pub data Event : Type 0 where
  payment_captured payment_failed refund_processed : Event

-- The fields of a payload that are read; an event of another name is `none`. A refund's amount is
-- there when it is an integer.
pub record Payload : Type 0 where
  pub event : Option Event
  pub order_id : Option String
  pub payment_id : Option String
  pub error_description : Option String
  pub refund_id : Option String
  pub refund_paise : Option ℤ

-- A request at the URL of an account; a body that is not JSON is `none`.
pub record Delivery : Type 0 where
  pub verified : Bool
  pub payload : Option Payload
  pub collecting_user_id : Option ℕ
  pub arrived_at : ℕ

-- The `detail` of a `WebhookOutcome`; its `handled` is a function of it.
pub data Outcome : Type 0 where
  unreadable_body event_not_handled carried_no_id no_payment : Outcome
  already_taken recorded_as_failed captured_and_settled : Outcome
  refund_incomplete refund_known refund_not_recorded refund_was_recorded : Outcome

-- `WebhookOutcome.handled`
abbrev pub handled : Outcome → Bool
handled recorded_as_failed = true
handled captured_and_settled = true
handled refund_was_recorded = true
handled _ = false

-- A nullable text that is neither missing nor empty.
abbrev pub given_text : Option String → Option String
given_text none = none
given_text (some s) = if str_eq s "" then none else some s

abbrev pub has_razorpay_order : String → Payment → Bool
has_razorpay_order id p = both_given p.razorpay_order_id (some id)

abbrev pub has_razorpay_refund : String → Refund → Bool
has_razorpay_refund id r = both_given r.razorpay_refund_id (some id)

-- The refund that Razorpay reports, as the call of `refund` asks for it.
unfoldable pub external_refund : String → ℤ → Wanted
unfolding from_paise
external_refund id paise = record {
  amount = two_places (from_paise paise);
  destination = to_source;
  idempotency_key = str_append "rzp:" id;
  actor_user_id = none;
  reason = some "Refunded from the Razorpay dashboard.";
  external_refund_id = some id;
  has_gateway = false;
  has_credentials = false;
}

-- `except (BadRequest, Conflict)`: what was written before stays written.
abbrev pub caught : {S : Type 0} → Result Refund × S → Result Outcome × S
caught (ok r, b) = (ok refund_was_recorded, b)
caught (err (bad_request d), b) = (ok refund_not_recorded, b)
caught (err (conflict d), b) = (ok refund_not_recorded, b)
caught (err e, b) = (err e, b)

-- `Settlement`, with one function for each kind of payment.
pub record Settlement (G : Type 0) : Type 0 where
  pub settle_print_order : Payment → Exec (Books G) (Unit {0})
  pub settle_wallet_topup : Payment → Exec (Books G) (Unit {0})
  pub settle_subscription : Payment → Exec (Books G) (Unit {0})

module _ {G : Type 0} (razorpay : RazorpayGateway G) (sink : RefundSink G)
    (settlement : Settlement G) where
  abbrev pub settle_kind : PaymentKind → Payment → Exec (Books G) (Unit {0})
  settle_kind print_order p = settlement.settle_print_order p
  settle_kind wallet_topup p = settlement.settle_wallet_topup p
  settle_kind subscription p = settlement.settle_subscription p

  -- `_settle`
  unfoldable pub settle : Payment → Exec (Books G) (Unit {0})
  settle p = settle_kind p.kind p

  -- `_record_external_refund`
  unfoldable pub record_external_refund :
      Payment → Option String → Option ℤ → Exec (Books G) Outcome
  unfolding issue external_refund
  record_external_refund p (some id) (some paise) b =
      if any (has_razorpay_refund id) b.refunds
      then (ok refund_known, b)
      else caught (issue razorpay sink p (external_refund id paise) b)
  record_external_refund p _ _ b = (ok refund_incomplete, b)

  -- The event of a payment that the account of the URL collected.
  unfoldable pub on_event : Event → Payload → String → ℕ → Payment → Exec (Books G) Outcome
  unfolding record_external_refund record_capture record_failure settle
  on_event refund_processed d id now p =
      record_external_refund p (given_text d.refund_id) d.refund_paise
  on_event payment_failed d id now p =
      if is_captured p.status
      then pure already_taken
      else record_failure p d.error_description >> pure recorded_as_failed
  on_event payment_captured d id now p =
      if is_captured p.status
      then pure already_taken
      else record_capture p id now >>= λ taken. settle taken >> pure captured_and_settled

  abbrev for_payment :
      Event → Payload → String → ℕ → Option ℕ → Option Payment → Exec (Books G) Outcome
  unfolding on_event
  for_payment e d id now account none = pure no_payment
  for_payment e d id now account (some p) =
      if opt_eq p.collecting_user_id account
      then on_event e d id now p
      else raise (unauthorized wrong_account)

  abbrev pub with_ids :
      Event → Payload → ℕ → Option ℕ → Option String → Option String → Exec (Books G) Outcome
  unfolding on_event
  with_ids e d now account (some order_id) (some id) b =
      for_payment e d id now account (find (has_razorpay_order order_id) b.payments) b
  with_ids e d now account _ _ b = (ok carried_no_id, b)

  abbrev pub with_event : Option Event → Payload → ℕ → Option ℕ → Exec (Books G) Outcome
  unfolding on_event
  with_event none d now account = pure event_not_handled
  with_event (some e) d now account =
      with_ids e d now account (given_text d.order_id) (given_text d.payment_id)

  abbrev pub read_body : Option Payload → ℕ → Option ℕ → Exec (Books G) Outcome
  unfolding on_event
  read_body none now account = pure unreadable_body
  read_body (some d) now account = with_event d.event d now account

  unfoldable pub handle_webhook : Delivery → Exec (Books G) Outcome
  unfolding on_event
  handle_webhook d =
      if d.verified
      then read_body d.payload d.arrived_at d.collecting_user_id
      else raise (unauthorized unverified_delivery)

  -- The request: what a delivery that raises has written is rolled back.
  unfoldable pub deliver : Delivery → Exec (Books G) Outcome
  unfolding handle_webhook
  deliver d = transaction (handle_webhook d)
