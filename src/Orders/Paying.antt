-- ===== src/Orders/Paying.antt =====
-- app/modules/orders/service.py: paying an order in a single commit, and what never was paid.
-- `label` gives the public id of a new print task, as the column's default does. That the column
-- `payment_reference` is unique is not modelled.
pub mod Queued
pub mod Commit
mod Examples
use printvendo_backend.Prelude.{
  ltb, leb, if◌then◌else◌, is_some, get_or, filter, find, update_where, bad_request, conflict,
  Result, ok, err, Exec, pure, lift, ◌>>=◌, ◌>>◌, raise_if, ℕ, zero, suc, ◌/◌, ◌%◌, String,
  str_append, Bool, true, false, not, ◌&&◌, Option, none, some, List, [], ◌∷◌, already_paid,
  wrong_method, order_not_open, order_expired, ◌==◌,
}
use printvendo_backend.Money.{two_places}
use printvendo_backend.Wallet.{debit}
use printvendo_backend.Printing.Models.{Shop, PrintTask, queued}
use printvendo_backend.Printing.Options.Workload.{PrintOptions}
use printvendo_backend.Printing.Claims.{enqueue_task, insert_task, new_task}
use printvendo_backend.Printing.Queue.{next_id}
use printvendo_backend.Payments.Models.{print_order, Payment}
use printvendo_backend.Payments.Charges.{record_wallet_payment}
use printvendo_backend.Orders.Models.{
  OrderState, awaiting_payment, paid, dispatched, expired, is_settled_order, PaymentMethod,
  by_wallet, ItemKind, document, OrderItem, Order, Till, is_order, save_order, on_wallets, on_books,
}

abbrev pub is_paid_for : OrderState → Bool
is_paid_for paid = true
is_paid_for dispatched = true
is_paid_for _ = false

abbrev pub is_awaiting : OrderState → Bool
is_awaiting awaiting_payment = true
is_awaiting _ = false

-- `expires_at is not None and expires_at <= now`
abbrev pub is_past : Option ℕ → ℕ → Bool
is_past none now = false
is_past (some deadline) now = leb deadline now

unfoldable pub require_payable : Order → ℕ → Result (Unit {0})
require_payable order now =
    if is_paid_for order.state
    then err (conflict already_paid)
    else if is_settled_order order.state
    then err (conflict order_not_open)
    else if not (is_awaiting order.state)
    then err (conflict order_not_open)
    else if is_past order.expires_at now
    then err (conflict order_expired)
    else ok tt

-- The items of the comprehension in `mark_paid`: documents, with a document.
abbrev is_document : ItemKind → Bool
is_document document = true
is_document _ = false

abbrev pub is_printable : OrderItem → Bool
is_printable item = is_document item.kind && is_some item.document_id

abbrev pub options_of : OrderItem → PrintOptions
options_of item = record {
  colour = item.colour;
  duplex = item.duplex;
  copies = item.copies;
  page_range = item.page_range;
}

abbrev enqueue_item : (ℕ → String) → ℕ → ℕ → OrderItem → Exec (Shop Till) PrintTask
unfolding enqueue_task
enqueue_item label now kiosk_id item s =
    enqueue_task (next_id s.tasks) (label (next_id s.tasks)) now (get_or item.document_id 0)
      kiosk_id (options_of item) item.page_count item.position s

unfoldable pub enqueue_items :
    (ℕ → String) → ℕ → ℕ → List OrderItem → Exec (Shop Till) (List PrintTask)
unfolding enqueue_item next_id
enqueue_items label now kiosk_id [] = pure []
enqueue_items label now kiosk_id (item ∷ items) = do
  task ← enqueue_item label now kiosk_id item
  tasks ← enqueue_items label now kiosk_id items
  pure (task ∷ tasks)

abbrev pub as_paid : Option String → ℕ → Order → Order
as_paid reference now order = record order {
  state = paid;
  paid_at = some now;
  payment_reference = reference;
}

unfoldable pub mark_paid :
    (ℕ → String) → Order → Option String → ℕ → Exec (Shop Till) (List PrintTask)
unfolding require_payable enqueue_items
mark_paid label order reference now = do
  lift (require_payable order now)
  save_order (as_paid reference now order)
  enqueue_items label now order.kiosk_id (filter is_printable order.items)

abbrev digit : ℕ → String
digit n =
    if n == 0
    then "0"
    else if n == 1
    then "1"
    else if n == 2
    then "2"
    else if n == 3
    then "3"
    else if n == 4
    then "4"
    else if n == 5
    then "5"
    else if n == 6
    then "6"
    else if n == 7
    then "7"
    else if n == 8
    then "8"
    else "9"

-- The digits of a number below 10 ^ fuel.
digits : ℕ → ℕ → String
digits zero n = ""
digits (suc fuel) n =
    let front = digits fuel (n / 10) in
    if ltb n 10 then digit n else str_append front (digit (n % 10))

-- `f"printing at kiosk {order.kiosk_id}"`
unfoldable pub payment_note : Order → Option String
unfolding digits
payment_note order =
    some (str_append "printing at kiosk " (digits (suc order.kiosk_id) order.kiosk_id))

abbrev pub is_by_wallet : Option PaymentMethod → Bool
is_by_wallet (some by_wallet) = true
is_by_wallet _ = false

unfoldable pub pay_with_wallet : (ℕ → String) → Order → ℕ → Exec (Shop Till) (List PrintTask)
unfolding require_payable mark_paid debit record_wallet_payment payment_note
pay_with_wallet label order now = do
  lift (require_payable order now)
  raise_if (not (is_by_wallet order.payment_method)) (bad_request wrong_method)
  on_wallets (debit order.user_id (two_places order.total_inr) order.public_id (payment_note order))
  on_books (
      record_wallet_payment order.user_id print_order (two_places order.total_inr)
        (some order.kiosk_id) (some order.id) now)
  mark_paid label order (some order.public_id) now

-- `settle_paid_order`
abbrev settle_found :
    (ℕ → String) → Option Order → Option String → ℕ → Exec (Shop Till) (List PrintTask)
unfolding mark_paid
settle_found label none reference now = pure []
settle_found label (some order) reference now = mark_paid label order reference now

unfoldable pub settle_paid_order :
    (ℕ → String) → Option ℕ → Option String → ℕ → Exec (Shop Till) (List PrintTask)
unfolding settle_found
settle_paid_order label none reference now s = (ok [], s)
settle_paid_order label (some order_id) reference now s =
    settle_found label (find (is_order order_id) s.outside.orders) reference now s

abbrev pub is_stale_order : ℕ → Order → Bool
is_stale_order now order = is_awaiting order.state && is_past order.expires_at now

unfoldable pub expire_stale_orders : ℕ → List Order → List Order
expire_stale_orders now orders =
    update_where (is_stale_order now) (λ o. record o { state = expired }) orders
