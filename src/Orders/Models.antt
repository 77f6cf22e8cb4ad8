-- ===== src/Orders/Models.antt =====
-- app/modules/orders/models.py: orders with their items, and the tables around them.
use printvendo_backend.Prelude.{
  ◌==◌, update_where, Result, ok, Exec, ℕ, String, Bool, true, false, Option, List,
}
use printvendo_backend.Money.{Money}
use printvendo_backend.Wallet.{Wallets}
use printvendo_backend.Printing.Models.{Shop}
use printvendo_backend.Payments.Models.{Books}

pub data OrderState : Type 0 where
  draft awaiting_payment paid dispatched completed expired refunded partially_failed : OrderState

-- SETTLED_ORDER_STATES
abbrev pub is_settled_order : OrderState → Bool
is_settled_order completed = true
is_settled_order expired = true
is_settled_order refunded = true
is_settled_order partially_failed = true
is_settled_order _ = false

pub data PaymentMethod : Type 0 where
  by_wallet by_gateway : PaymentMethod

pub data ItemKind : Type 0 where
  document shop_item : ItemKind

pub record OrderItem : Type 0 where
  pub position : ℕ
  pub kind : ItemKind
  pub document_id : Option ℕ
  pub colour : Bool
  pub duplex : Bool
  pub copies : ℕ
  pub page_range : Option (List ℕ)
  pub page_count : ℕ
  pub impressions : ℕ
  pub sheets : ℕ
  pub amount_inr : Money

pub record Order : Type 0 where
  pub id : ℕ
  pub public_id : String
  pub user_id : ℕ
  pub kiosk_id : ℕ
  pub state : OrderState
  pub subtotal_inr : Money
  pub fee_inr : Money
  pub total_inr : Money
  pub payment_method : Option PaymentMethod
  pub payment_reference : Option String
  pub expires_at : Option ℕ
  pub paid_at : Option ℕ
  pub refunded_at : Option ℕ
  pub created_at : ℕ
  pub items : List OrderItem

-- The orders, and the payments and balances. With the print tasks they are the shop.
pub record Till : Type 0 where
  pub orders : List Order
  pub books : Books (Unit {0})

abbrev pub is_order : ℕ → Order → Bool
is_order i o = o.id == i

abbrev pub save_order : Order → Exec (Shop Till) (Unit {0})
save_order o s = (
  ok tt,
  record s {
    outside = record s.outside { orders = update_where (is_order o.id) (λ _. o) s.outside.orders };
  },
)

-- A request on the balances, and one on the books.
abbrev pub on_wallets : {A : Type 0} → Exec Wallets A → Shop Till → Result A × Shop Till
on_wallets m s =
    let books = s.outside.books in
    let (r, w) = m books.wallets in
    (r, record s { outside = record s.outside { books = record books { wallets = w } } })

abbrev pub on_books : {A : Type 0} → Exec (Books (Unit {0})) A → Shop Till → Result A × Shop Till
on_books m s =
    let (r, books) = m s.outside.books in
    (r, record s { outside = record s.outside { books = books } })
