-- ===== src/Billing/Purchase.antt =====
-- app/modules/billing/purchase.py: buying a subscription, and putting it in force when it is paid.
pub mod Pending
pub mod Term
use mathlib.Core.Option
use printvendo_backend.Prelude.{
  ltb, leb, ◌==◌, if◌then◌else◌, find, no_such_subscription, already_buying, not_purchasable,
  no_months, bad_request, not_found, conflict, ok, err, Exec, lift, transaction, continue, ◌>>=◌, ℕ,
  ◌+◌, ◌*◌, Bool, not, ◌&&◌, Option, none, some, List, [], ◌∷◌,
}
use printvendo_backend.Money.{Decimal, Money, two_places}
use printvendo_backend.Billing.Models.{
  pending_payment, active, cancelled, Plan, Subscription, Terms, is_active_status,
  is_pending_status, is_subscription, write_subscription, insert_subscription,
}
use printvendo_backend.Billing.Quotes.{Quote, quote_subscription}
use printvendo_backend.Billing.Subscriptions.{
  later, active_subscription, day, grant_trial, end_trial, set_negotiated_price,
}

-- DAYS_PER_MONTH, GRACE_DAYS and PURCHASE_LIFETIME, in seconds.
abbrev pub month : ℕ
month = 30 * day

abbrev pub grace : ℕ
grace = 5 * day

abbrev pub purchase_lifetime : ℕ
purchase_lifetime = 1200

-- An unpaid subscription of an owner.
abbrev pub is_pending_for : ℕ → Subscription → Bool
is_pending_for user_id s = s.user_id == user_id && is_pending_status s.status

abbrev pub cancel : Subscription → Subscription
cancel s = record s { status = cancelled }

-- The checkout that is open already: it blocks while it is live, and is cancelled once it lapsed.
abbrev pub settle_open : Option Subscription → ℕ → Exec Terms (Unit {0})
settle_open none now b = (ok tt, b)
settle_open (some s) now b =
    if leb now (s.created_at + purchase_lifetime)
    then (err (conflict already_buying), b)
    else (ok tt, write_subscription s.id cancel b)

abbrev pub promised_price : Option Subscription → Option Money
promised_price none = none
promised_price (some s) = s.negotiated_price

abbrev pub purchase_row : ℕ → Plan → Option Money → ℕ → Quote → ℕ → Subscription
purchase_row user_id plan promised now q id = record {
  id = id;
  user_id = user_id;
  plan_id = plan.id;
  status = pending_payment;
  duration_months = q.duration_months;
  monthly_price_charged = q.monthly_price;
  discount_percent = q.discount_percent;
  total_amount = q.total;
  negotiated_price = promised;
  free_until = none;
  starts_at = none;
  expires_at = none;
  grace_ends_at = none;
  created_at = now;
}

-- At today's price, with the rate that the owner's subscription promises.
abbrev pub open_purchase : ℕ → Plan → ℕ → ℕ → Option Money → Exec Terms Subscription
unfolding quote_subscription
open_purchase user_id plan months now promised b =
    (lift (quote_subscription b user_id plan months (Option.map two_places promised)) >>= λ q.
    insert_subscription (purchase_row user_id plan promised now q))
      b

-- `start_purchase`; `clock` is the database's own time, which `created_at` and the terms in force read.
unfoldable pub start_purchase : ℕ → Plan → ℕ → ℕ → ℕ → Exec Terms Subscription
unfolding quote_subscription active_subscription
start_purchase user_id plan months now clock b =
    continue (settle_open (find (is_pending_for user_id) b.subscriptions) now b) (λ _ b'.
      open_purchase user_id plan months clock
        (promised_price (active_subscription b' clock user_id)) b')

-- The end of what the owner was given by another subscription: paid, or on trial, without the grace.
abbrev pub entitled_until : Option Subscription → ℕ → Option ℕ
entitled_until none id = none
entitled_until (some s) id = if s.id == id then none else later s.expires_at s.free_until

-- `max(now, entitled)`, when there is one.
abbrev pub starting_at : ℕ → Option ℕ → ℕ
starting_at now none = now
starting_at now (some end) = if ltb now end then end else now

-- The columns of a term that starts at `start`.
abbrev pub in_force_from : ℕ → ℕ → Subscription → Subscription
in_force_from start months s = record s {
  status = active;
  starts_at = some start;
  expires_at = some (start + month * months);
  grace_ends_at = some (start + month * months + grace);
}

-- `activate_subscription`
unfoldable pub activate_subscription : Subscription → ℕ → ℕ → Exec Terms Subscription
unfolding active_subscription
activate_subscription s now clock b =
    let start = starting_at now (entitled_until (active_subscription b clock s.user_id) s.id) in
    if is_active_status s.status
    then (ok s, b)
    else if not (is_pending_status s.status)
    then (err (conflict not_purchasable), b)
    else if ltb s.duration_months 1
    then (err (bad_request no_months), b)
    else (
      ok (in_force_from start s.duration_months s),
      write_subscription s.id (in_force_from start s.duration_months) b,
    )

-- What happens to subscriptions, each in a transaction, on the row as it is then.
pub data BillingEvent : Type 0 where
  buys : ℕ → Plan → ℕ → BillingEvent
  is_paid : ℕ → BillingEvent
  tries : ℕ → ℕ → ℕ → BillingEvent
  ends_trial : ℕ → BillingEvent
  negotiates : ℕ → Option Decimal → BillingEvent

abbrev pub on_row :
    Option Subscription → (Subscription → Exec Terms Subscription) → Exec Terms Subscription
on_row none act b = (err (not_found no_such_subscription), b)
on_row (some s) act b = act s b

abbrev pub on_subscription : ℕ → (Subscription → Exec Terms Subscription) → Exec Terms Subscription
on_subscription i act b = on_row (find (is_subscription i) b.subscriptions) act b

unfoldable pub bill : BillingEvent → ℕ → Exec Terms Subscription
unfolding start_purchase activate_subscription grant_trial end_trial set_negotiated_price
bill (buys user_id plan months) clock = start_purchase user_id plan months clock clock
bill (is_paid i) clock = on_subscription i (λ s. activate_subscription s clock clock)
bill (tries user_id plan_id days) clock = grant_trial user_id plan_id days clock clock
bill (ends_trial i) clock = on_subscription i (λ s. end_trial s clock)
bill (negotiates i price) clock = on_subscription i (λ s. set_negotiated_price s price)

unfoldable pub run_billing : List (BillingEvent × ℕ) → Terms → Terms
unfolding bill
run_billing [] b = b
run_billing (e ∷ es) b = run_billing es (transaction (bill e.0 e.1) b).1
