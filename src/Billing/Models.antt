-- ===== src/Billing/Models.antt =====
-- app/modules/billing/models.py: plans, the two discount ladders and subscriptions. Times are seconds.
use printvendo_backend.Prelude.{
  ◌==◌, update_where, ok, Exec, ℕ, ◌+◌, String, Bool, true, false, Option, List, ◌∷◌,
}
use printvendo_backend.Money.{Money}

pub data SubscriptionStatus : Type 0 where
  pending_payment active expired cancelled : SubscriptionStatus

pub record Plan : Type 0 where
  pub id : ℕ
  pub name : String
  pub monthly_price : Money
  pub max_kiosks : ℕ
  pub price_floor_bw : Option Money
  pub price_ceiling_bw : Option Money
  pub price_floor_color : Option Money
  pub price_ceiling_color : Option Money
  pub is_active : Bool

-- The published rate for paying some months up front, in hundredths of a percent.
pub record PlanDiscount : Type 0 where
  pub plan_id : ℕ
  pub duration_months : ℕ
  pub percent : Money

-- The rate that one owner was promised.
pub record OwnerDiscount : Type 0 where
  pub user_id : ℕ
  pub duration_months : ℕ
  pub percent : Money
  pub note : Option String
  pub granted_by_user_id : Option ℕ

pub record Subscription : Type 0 where
  pub id : ℕ
  pub user_id : ℕ
  pub plan_id : ℕ
  pub status : SubscriptionStatus
  pub duration_months : ℕ
  pub monthly_price_charged : Money
  pub discount_percent : Money
  pub total_amount : Money
  pub negotiated_price : Option Money
  pub free_until : Option ℕ
  pub starts_at : Option ℕ
  pub expires_at : Option ℕ
  pub grace_ends_at : Option ℕ
  pub created_at : ℕ

-- The tables, in the order in which a query without one reads them.
pub record Terms : Type 0 where
  pub plans : List Plan
  pub plan_discounts : List PlanDiscount
  pub owner_discounts : List OwnerDiscount
  pub subscriptions : List Subscription
  pub next_id : ℕ

abbrev pub is_active_status : SubscriptionStatus → Bool
is_active_status active = true
is_active_status _ = false

abbrev pub is_pending_status : SubscriptionStatus → Bool
is_pending_status pending_payment = true
is_pending_status _ = false

abbrev pub is_subscription : ℕ → Subscription → Bool
is_subscription i s = s.id == i

-- `db.add(subscription)` of a row that is there: its columns are written.
abbrev pub write_subscription : ℕ → (Subscription → Subscription) → Terms → Terms
write_subscription i change b = record b {
  subscriptions = update_where (is_subscription i) change b.subscriptions;
}

abbrev pub insert_subscription : (ℕ → Subscription) → Exec Terms Subscription
insert_subscription row b = (
  ok (row b.next_id),
  record b { subscriptions = row b.next_id ∷ b.subscriptions; next_id = b.next_id + 1 },
)
