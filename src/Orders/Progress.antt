-- ===== src/Orders/Progress.antt =====
-- app/modules/orders/service.py and refunds.py: how an order follows its prints, and its refund.
-- The query for the tasks of an order is `task_states_at` of app/modules/printing/repository.py.
pub mod Derived
mod Examples
use printvendo_backend.Prelude.{
  leb, ◌==◌, if◌then◌else◌, get_or, opt_eq, filter, any, all, update_where, ltb_ℤ, ◌>>=◌, ◌>>◌, ℕ,
  Bool, true, false, not, ◌&&◌, Option, none, some, List, [], ◌∷◌,
}
use printvendo_backend.Money.{Money}
use printvendo_backend.Printing.Models.{printed, is_terminal, PrintTask}
use printvendo_backend.Orders.Models.{
  OrderState, dispatched, completed, refunded, partially_failed, OrderItem, Order, is_order,
}
use printvendo_backend.Orders.Paying.{is_paid_for}

abbrev item_has : ℕ → OrderItem → Bool
item_has document_id item = opt_eq item.document_id (some document_id)

-- Whether a task is one of an order's prints: its document, its kiosk, and not older than it.
abbrev pub is_print_of : Order → PrintTask → Bool
is_print_of order task =
    any (item_has task.document_id) order.items
    && task.kiosk_id == order.kiosk_id
    && leb order.created_at task.created_at

abbrev pub prints_of : Order → List PrintTask → List PrintTask
prints_of order tasks = filter (is_print_of order) tasks

abbrev pub is_printed : PrintTask → Bool
is_printed t = elim t.state [ printed ↦ true | _ ↦ false ]

abbrev pub is_over : PrintTask → Bool
is_over t = is_terminal t.state

-- The state that these prints give.
unfoldable pub state_of_prints : List PrintTask → OrderState
state_of_prints prints =
    if not (all is_over prints)
    then dispatched
    else if all is_printed prints
    then completed
    else partially_failed

abbrev derived : Order → List PrintTask → Order
unfolding state_of_prints
derived order [] = order
derived order (t ∷ ts) = record order { state = state_of_prints (t ∷ ts) }

-- `_derive_from_prints`
unfoldable pub derive_from_prints : Order → List PrintTask → Order
unfolding derived
derive_from_prints order tasks = derived order (prints_of order tasks)

-- The orders in flight at the kiosk with that document, as the query joins them.
abbrev pub owns_print : ℕ → ℕ → Order → Bool
owns_print document_id kiosk_id order =
    any (item_has document_id) order.items && order.kiosk_id == kiosk_id && is_paid_for order.state

abbrev later_paid : Order → Option Order → Order
later_paid o none = o
later_paid o (some u) = if leb (get_or u.paid_at 0) (get_or o.paid_at 0) then o else u

-- `ORDER BY paid_at DESC LIMIT 1`; of two that were paid at one time, the first in the table.
unfoldable pub newest_paid : List Order → Option Order
newest_paid [] = none
newest_paid (o ∷ os) = some (later_paid o (newest_paid os))

abbrev refreshed : Option Order → List PrintTask → List Order → List Order
unfolding derive_from_prints
refreshed none tasks orders = orders
refreshed (some order) tasks orders =
    update_where (is_order order.id) (λ _. derive_from_prints order tasks) orders

unfoldable pub refresh_order_state : ℕ → ℕ → List PrintTask → List Order → List Order
unfolding refreshed newest_paid
refresh_order_state document_id kiosk_id tasks orders =
    refreshed (newest_paid (filter (owns_print document_id kiosk_id) orders)) tasks orders

abbrev closed_by : Money → Money → ℕ → Order → Order
closed_by refunded_inr paid_inr now order =
    if ltb_ℤ refunded_inr paid_inr
    then order
    else record order { state = refunded; refunded_at = some now }

-- `apply_payment_refund`: no order, or none in the table, is nothing to do.
unfoldable pub apply_payment_refund : Option ℕ → Money → Money → ℕ → List Order → List Order
apply_payment_refund none refunded_inr paid_inr now orders = orders
apply_payment_refund (some order_id) refunded_inr paid_inr now orders =
    update_where (is_order order_id) (closed_by refunded_inr paid_inr now) orders
