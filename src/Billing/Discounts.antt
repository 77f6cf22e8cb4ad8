-- ===== src/Billing/Discounts.antt =====
-- app/modules/billing/discounts.py: percent off, published and negotiated.
pub mod Lookup
use printvendo_backend.Prelude.{
  if◌then◌else◌, filter, find, update_where, bad_duration, bad_percent, bad_request, Result, ok,
  err, Exec, lift, ◌>>=◌, ℕ, String, not, Option, none, some, ◌∷◌,
}
use printvendo_backend.Money.{Decimal, Money, as_money}
use printvendo_backend.Billing.Models.{Plan, PlanDiscount, OwnerDiscount, Terms}
use printvendo_backend.Billing.Quotes.{is_allowed_duration, is_owner_rate, is_plan_rate, is_percent}

-- `_check`
unfoldable pub check_discount : ℕ → Decimal → Result Money
unfolding as_money
check_discount months percent =
    if not (is_allowed_duration months)
    then err (bad_request bad_duration)
    else if not (is_percent (as_money percent))
    then err (bad_request bad_percent)
    else ok (as_money percent)

abbrev pub plan_rate_row : ℕ → ℕ → Money → PlanDiscount
plan_rate_row plan_id months percent = record {
  plan_id = plan_id;
  duration_months = months;
  percent = percent;
}

abbrev pub owner_rate_row : ℕ → ℕ → Money → Option String → Option ℕ → OwnerDiscount
owner_rate_row user_id months percent remark granted_by = record {
  user_id = user_id;
  duration_months = months;
  percent = percent;
  note = remark;
  granted_by_user_id = granted_by;
}

abbrev pub put_plan_rate : ℕ → ℕ → Money → Option PlanDiscount → Exec Terms PlanDiscount
put_plan_rate plan_id months percent (some old) b = (
  ok (record old { percent = percent }),
  record b {
    plan_discounts =
        update_where (is_plan_rate plan_id months) (λ d. record d { percent = percent })
          b.plan_discounts;
  },
)
put_plan_rate plan_id months percent none b = (
  ok (plan_rate_row plan_id months percent),
  record b { plan_discounts = plan_rate_row plan_id months percent ∷ b.plan_discounts },
)

-- `set_plan_discount`
unfoldable pub set_plan_discount : Plan → ℕ → Decimal → Exec Terms PlanDiscount
unfolding check_discount
set_plan_discount plan months percent b =
    (lift (check_discount months percent) >>= λ p.
    put_plan_rate plan.id months p (find (is_plan_rate plan.id months) b.plan_discounts))
      b

abbrev pub granted_rate : Money → Option String → Option ℕ → OwnerDiscount → OwnerDiscount
granted_rate percent remark granted_by d = record d {
  percent = percent;
  note = remark;
  granted_by_user_id = granted_by;
}

abbrev pub put_owner_rate :
    ℕ → ℕ → Money → Option String → Option ℕ → Option OwnerDiscount → Exec Terms OwnerDiscount
put_owner_rate user_id months percent remark granted_by (some old) b = (
  ok (granted_rate percent remark granted_by old),
  record b {
    owner_discounts =
        update_where (is_owner_rate user_id months) (granted_rate percent remark granted_by)
          b.owner_discounts;
  },
)
put_owner_rate user_id months percent remark granted_by none b = (
  ok (owner_rate_row user_id months percent remark granted_by),
  record b {
    owner_discounts = owner_rate_row user_id months percent remark granted_by ∷ b.owner_discounts;
  },
)

-- `set_owner_discount`
unfoldable pub set_owner_discount :
    ℕ → ℕ → Decimal → Option ℕ → Option String → Exec Terms OwnerDiscount
unfolding check_discount
set_owner_discount user_id months percent granted_by remark b =
    (lift (check_discount months percent) >>= λ p.
    put_owner_rate user_id months p remark granted_by
      (find (is_owner_rate user_id months) b.owner_discounts))
      b

-- `clear_owner_discount`
unfoldable pub clear_owner_discount : ℕ → ℕ → Terms → Terms
clear_owner_discount user_id months b = record b {
  owner_discounts = filter (λ d. not (is_owner_rate user_id months d)) b.owner_discounts;
}
