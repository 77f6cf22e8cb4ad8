-- ===== src/Billing/Subscriptions.antt =====
-- app/modules/billing/subscriptions.py: whether an owner's subscription is in force, and the terms
-- that an admin may set on it. `clock` is what `datetime.now` answers, and `now` what a caller gives.
pub mod InForce
pub mod Trials
use printvendo_backend.Prelude.{
  ltb, leb, ◌==◌, if◌then◌else◌, is_some, get_or, filter, pos, ltb_ℤ, bad_plan_price, short_trial,
  bad_request, ok, err, Exec, ℕ, ◌+◌, ◌*◌, max, Bool, false, ◌&&◌, Option, none, some, List, [],
  ◌∷◌,
}
use printvendo_backend.Money.{Decimal, Money, as_money}
use printvendo_backend.Billing.Models.{
  active, Subscription, Terms, is_active_status, write_subscription, insert_subscription,
}

-- The later of two moments, one of which may be missing.
abbrev pub later : Option ℕ → Option ℕ → Option ℕ
later none d = d
later (some a) none = some a
later (some a) (some b) = some (max a b)

-- `effective_end`
unfoldable pub effective_end : Subscription → Option ℕ
effective_end s = later s.free_until (later s.grace_ends_at s.expires_at)

abbrev pub ends_after : Option ℕ → ℕ → Bool
ends_after none now = false
ends_after (some end) now = ltb now end

-- `is_in_force`
unfoldable pub is_in_force : ℕ → Subscription → Bool
unfolding effective_end
is_in_force now s = is_active_status s.status && ends_after (effective_end s) now

-- The rows that `active_subscription` chooses from.
abbrev pub counts_for : ℕ → ℕ → Subscription → Bool
unfolding is_in_force
counts_for clock user_id s = s.user_id == user_id && is_in_force clock s

-- `max(candidates, key=effective_end)`: the first of the rows that run longest.
abbrev pub longer : Subscription → Option Subscription → Option Subscription
unfolding effective_end
longer s none = some s
longer s (some best) =
    if leb (get_or (effective_end best) 0) (get_or (effective_end s) 0) then some s else some best

abbrev pub longest : List Subscription → Option Subscription
unfolding effective_end
longest [] = none
longest (s ∷ rest) = longer s (longest rest)

-- `active_subscription`
unfoldable pub active_subscription : Terms → ℕ → ℕ → Option Subscription
unfolding is_in_force effective_end
active_subscription b clock user_id = longest (filter (counts_for clock user_id) b.subscriptions)

-- `has_active_subscription`
unfoldable pub has_active_subscription : Terms → ℕ → ℕ → Bool
unfolding active_subscription
has_active_subscription b clock user_id = is_some (active_subscription b clock user_id)

-- `is_on_trial`
abbrev pub is_on_trial : ℕ → Subscription → Bool
is_on_trial now s = ends_after s.free_until now

abbrev pub day : ℕ
day = 86400

-- A trial that is granted again: the later end, and the plan that is named now.
abbrev pub extend_trial : ℕ → ℕ → Subscription → Subscription
extend_trial ends plan_id s = record s {
  free_until = later s.free_until (some ends);
  plan_id = plan_id;
}

abbrev pub new_trial : ℕ → ℕ → ℕ → ℕ → ℕ → Subscription
new_trial user_id plan_id now ends id = record {
  id = id;
  user_id = user_id;
  plan_id = plan_id;
  status = active;
  duration_months = 1;
  monthly_price_charged = pos 0;
  discount_percent = pos 0;
  total_amount = pos 0;
  negotiated_price = none;
  free_until = some ends;
  starts_at = some now;
  expires_at = none;
  grace_ends_at = none;
  created_at = now;
}

-- The subscription whose trial is extended: one in force that has or had a trial.
abbrev pub with_trial : Option Subscription → Option Subscription
with_trial none = none
with_trial (some s) = if is_some s.free_until then some s else none

abbrev pub trial_of : Option Subscription → ℕ → ℕ → ℕ → ℕ → Exec Terms Subscription
trial_of (some s) user_id plan_id now ends b =
    (ok (extend_trial ends plan_id s), write_subscription s.id (extend_trial ends plan_id) b)
trial_of none user_id plan_id now ends b =
    insert_subscription (new_trial user_id plan_id now ends) b

-- `grant_trial`
unfoldable pub grant_trial : ℕ → ℕ → ℕ → ℕ → ℕ → Exec Terms Subscription
unfolding active_subscription
grant_trial user_id plan_id days now clock b =
    if ltb days 1
    then (err (bad_request short_trial), b)
    else trial_of (with_trial (active_subscription b clock user_id)) user_id plan_id now
        (now + day * days) b

-- `end_trial`
unfoldable pub end_trial : Subscription → ℕ → Exec Terms Subscription
end_trial s now b = (
  ok (record s { free_until = some now }),
  write_subscription s.id (λ row. record row { free_until = some now }) b,
)

abbrev negotiated_as : Subscription → Option Money → Exec Terms Subscription
negotiated_as s price b = (
  ok (record s { negotiated_price = price }),
  write_subscription s.id (λ row. record row { negotiated_price = price }) b,
)

-- `set_negotiated_price`
unfoldable pub set_negotiated_price : Subscription → Option Decimal → Exec Terms Subscription
unfolding as_money
set_negotiated_price s none b = negotiated_as s none b
set_negotiated_price s (some price) b =
    if ltb_ℤ (as_money price) (pos 0)
    then (err (bad_request bad_plan_price), b)
    else negotiated_as s (some (as_money price)) b
