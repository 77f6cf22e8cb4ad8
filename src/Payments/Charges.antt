-- ===== src/Payments/Charges.antt =====
-- app/modules/payments/charges.py: payments that are written, captured and failed.
-- Opening a checkout asks Razorpay for an order, which comes as `razorpay_order_id` here; checking a
-- callback's signature comes as `verified`.
use printvendo_backend.Prelude.{
  ◌==◌, if◌then◌else◌, opt_eq, find, any, pos, leb_ℤ, nothing_to_pay, already_captured,
  wrong_payment, bad_signature, bad_request, conflict, ok, err, Exec, pure, continue, ◌>>◌,
  raise_if, ℕ, ◌+◌, String, Bool, true, false, not, ◌&&◌, Option, none, some, ◌∷◌,
}
use printvendo_backend.Money.{Decimal, Money, as_money}
use printvendo_backend.Payments.Models.{
  PaymentKind, print_order, PaymentSource, wallet, PaymentStatus, created, captured, failed,
  Payment, Books, both_given, save_payment,
}

-- `payment.status is PaymentStatus.CAPTURED`
abbrev pub is_captured : PaymentStatus → Bool
is_captured captured = true
is_captured _ = false

abbrev pub new_payment :
    ℕ
    → ℕ
    → PaymentKind
    → Money
    → Option ℕ
    → Option ℕ
    → Option ℕ
    → PaymentSource
    → Option ℕ
    → Option String
    → PaymentStatus
    → Option ℕ
    → Payment
new_payment id user_id kind amount kiosk_id order_id subscription_id source collecting_user_id
      razorpay_order_id status captured_at =
    record {
      id = id;
      user_id = user_id;
      kind = kind;
      order_id = order_id;
      subscription_id = subscription_id;
      kiosk_id = kiosk_id;
      source = source;
      collecting_user_id = collecting_user_id;
      razorpay_order_id = razorpay_order_id;
      razorpay_payment_id = none;
      amount_inr = amount;
      refunded_inr = pos 0;
      status = status;
      failure_reason = none;
      captured_at = captured_at;
    }

abbrev is_order_payment : ℕ → Payment → Bool
is_order_payment order_id p =
    opt_eq p.order_id (some order_id) && elim p.kind [ print_order ↦ true | _ ↦ false ]

abbrev pub as_captured : String → ℕ → Payment → Payment
as_captured razorpay_payment_id now p = record p {
  status = captured;
  razorpay_payment_id = some razorpay_payment_id;
  captured_at = some now;
}

-- Another row that claims the same payment at Razorpay: the unique column.
abbrev pub claims_payment : ℕ → String → Payment → Bool
claims_payment id razorpay_payment_id p =
    not (p.id == id) && both_given p.razorpay_payment_id (some razorpay_payment_id)

abbrev pub as_failed : Option String → Payment → Payment
as_failed reason p = record p { status = failed; failure_reason = reason }

module _ {G : Type 0} where
  abbrev pub insert_payment : (ℕ → Payment) → Exec (Books G) Payment
  insert_payment row b = (
    ok (row b.next_payment_id),
    record b {
      payments = row b.next_payment_id ∷ b.payments;
      next_payment_id = b.next_payment_id + 1;
    },
  )

  unfoldable pub open_checkout :
      ℕ
      → PaymentKind
      → Decimal
      → Option ℕ
      → PaymentSource
      → Option ℕ
      → Option ℕ
      → Option ℕ
      → String
      → Exec (Books G) Payment
  unfolding as_money
  open_checkout user_id kind amount kiosk_id source collecting_user_id order_id subscription_id
        razorpay_order_id =
      do
        raise_if (leb_ℤ (as_money amount) (pos 0)) (bad_request nothing_to_pay)
        insert_payment (λ id.
            new_payment id user_id kind (as_money amount) kiosk_id order_id subscription_id source
              collecting_user_id (some razorpay_order_id) created none)

  unfoldable pub record_wallet_payment :
      ℕ → PaymentKind → Decimal → Option ℕ → Option ℕ → ℕ → Exec (Books G) Payment
  unfolding as_money
  record_wallet_payment user_id kind amount kiosk_id order_id now = insert_payment (λ id.
      new_payment id user_id kind (as_money amount) kiosk_id order_id none wallet none none captured
        (some now))

  -- The newest payment of an order.
  unfoldable pub payment_for_order : Books G → ℕ → Option Payment
  payment_for_order b order_id = find (is_order_payment order_id) b.payments

  unfoldable pub record_capture : Payment → String → ℕ → Exec (Books G) Payment
  record_capture payment razorpay_payment_id now b =
      if is_captured payment.status
      then (
        err (
            conflict (
              if both_given payment.razorpay_payment_id (some razorpay_payment_id)
              then already_captured
              else wrong_payment)),
        b,
      )
      else if any (claims_payment payment.id razorpay_payment_id) b.payments
      then (err (conflict already_captured), b)
      else continue (save_payment (as_captured razorpay_payment_id now payment) b)
          (λ _. pure (as_captured razorpay_payment_id now payment))

  -- `confirm_payment`, once the signature has been checked.
  unfoldable pub confirm_payment : Payment → String → Bool → ℕ → Exec (Books G) Payment
  unfolding record_capture
  confirm_payment payment razorpay_payment_id verified now = do
    raise_if (not verified) (bad_request bad_signature)
    record_capture payment razorpay_payment_id now

  -- The reason is taken as it is; the code cuts it at 300 characters.
  unfoldable pub record_failure : Payment → Option String → Exec (Books G) Payment
  record_failure payment reason = do
    raise_if (is_captured payment.status) (conflict already_captured)
    save_payment (as_failed reason payment)
    pure (as_failed reason payment)
