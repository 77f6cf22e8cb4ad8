-- ===== src/Payments/Models.antt =====
-- app/modules/payments/models.py: payments and refunds, and the tables that the operations reach.
use printvendo_backend.Prelude.{
  ◌==◌, update_where, ok, Exec, ℕ, String, Bool, false, Option, some, List, str_eq,
}
use printvendo_backend.Money.{Money}
use printvendo_backend.Wallet.{Wallets}

pub data PaymentKind : Type 0 where
  print_order wallet_topup subscription : PaymentKind

pub data PaymentSource : Type 0 where
  platform_gateway owner_gateway wallet : PaymentSource

pub data PaymentStatus : Type 0 where
  created captured failed refunded partially_refunded : PaymentStatus

pub record Payment : Type 0 where
  pub id : ℕ
  pub user_id : ℕ
  pub kind : PaymentKind
  pub order_id : Option ℕ
  pub subscription_id : Option ℕ
  pub kiosk_id : Option ℕ
  pub source : PaymentSource
  pub collecting_user_id : Option ℕ
  pub razorpay_order_id : Option String
  pub razorpay_payment_id : Option String
  pub amount_inr : Money
  pub refunded_inr : Money
  pub status : PaymentStatus
  pub failure_reason : Option String
  pub captured_at : Option ℕ

pub data RefundDestination : Type 0 where
  to_source to_wallet : RefundDestination

pub record Refund : Type 0 where
  pub payment_id : ℕ
  pub amount_inr : Money
  pub destination : RefundDestination
  pub idempotency_key : String
  pub razorpay_refund_id : Option String
  pub actor_user_id : Option ℕ
  pub reason : Option String

-- The tables, newest row first, and what is reached outside of them.
pub record Books (G : Type 0) : Type 0 where
  pub payments : List Payment
  pub refunds : List Refund
  pub wallets : Wallets
  pub next_payment_id : ℕ
  pub outside : G

abbrev pub is_payment : ℕ → Payment → Bool
is_payment i p = p.id == i

-- Two nullable texts that are both given, and the same.
abbrev pub both_given : Option String → Option String → Bool
both_given (some a) (some b) = str_eq a b
both_given _ _ = false

module _ {G : Type 0} where
  abbrev pub save_payment : Payment → Exec (Books G) (Unit {0})
  save_payment p b =
      (ok tt, record b { payments = update_where (is_payment p.id) (λ _. p) b.payments })
