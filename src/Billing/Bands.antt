-- ===== src/Billing/Bands.antt =====
-- app/modules/billing/bands.py: what an owner's plan allows them to charge.
use printvendo_backend.Prelude.{◌==◌, find, ℕ, Option, none, some}
use printvendo_backend.Money.{Money}
use printvendo_backend.Billing.Models.{Plan, Subscription, Terms}
use printvendo_backend.Billing.Subscriptions.{active_subscription}

pub record PlanPriceBand : Type 0 where
  pub floor_bw : Option Money
  pub ceiling_bw : Option Money
  pub floor_color : Option Money
  pub ceiling_color : Option Money

-- UNBOUNDED
abbrev pub unbounded : PlanPriceBand
unbounded = record { floor_bw = none; ceiling_bw = none; floor_color = none; ceiling_color = none }

abbrev pub band_of : Option Plan → PlanPriceBand
band_of none = unbounded
band_of (some p) = record {
  floor_bw = p.price_floor_bw;
  ceiling_bw = p.price_ceiling_bw;
  floor_color = p.price_floor_color;
  ceiling_color = p.price_ceiling_color;
}

abbrev pub plan_of : Terms → Option Subscription → Option Plan
plan_of b none = none
plan_of b (some s) = find (λ p. p.id == s.plan_id) b.plans

-- `price_band_for`
unfoldable pub price_band_for : Terms → ℕ → ℕ → PlanPriceBand
unfolding active_subscription
price_band_for b clock user_id = band_of (plan_of b (active_subscription b clock user_id))
