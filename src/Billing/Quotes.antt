-- ===== src/Billing/Quotes.antt =====
-- app/modules/billing/quotes.py: what a subscription costs an owner for some months.
pub mod Bounds
use printvendo_backend.Prelude.{
  ◌==◌, if◌then◌else◌, is_some, find, pos, ◌-ℤ◌, ◌*ℤ◌, ltb_ℤ, leb_ℤ, bad_duration, bad_percent,
  bad_plan_price, plan_retired, bad_request, Result, ok, err, ℕ, Bool, not, ◌&&◌, ◌||◌, Option,
  none, some,
}
use printvendo_backend.Money.{Decimal, Money, two_places, as_money}
use printvendo_backend.Billing.Models.{Plan, PlanDiscount, OwnerDiscount, Terms}

pub data DiscountSource : Type 0 where
  from_owner from_plan no_discount : DiscountSource

-- `Quote`
pub record Quote : Type 0 where
  pub duration_months : ℕ
  pub monthly_price : Money
  pub discount_percent : Money
  pub total : Money
  pub negotiated : Bool
  pub discount_source : DiscountSource

-- `duration_months in ALLOWED_DURATIONS`
abbrev pub is_allowed_duration : ℕ → Bool
is_allowed_duration m = m == 1 || (m == 6 || m == 12)

abbrev pub is_owner_rate : ℕ → ℕ → OwnerDiscount → Bool
is_owner_rate user_id months d = d.user_id == user_id && d.duration_months == months

abbrev pub is_plan_rate : ℕ → ℕ → PlanDiscount → Bool
is_plan_rate plan_id months d = d.plan_id == plan_id && d.duration_months == months

abbrev pub choose_rate : Option OwnerDiscount → Option PlanDiscount → Money × DiscountSource
choose_rate (some d) published = (d.percent, from_owner)
choose_rate none (some d) = (d.percent, from_plan)
choose_rate none none = (pos 0, no_discount)

-- `_discount_for`
unfoldable pub discount_for : Terms → ℕ → ℕ → ℕ → Money × DiscountSource
discount_for b user_id plan_id months =
    choose_rate (find (is_owner_rate user_id months) b.owner_discounts)
      (find (is_plan_rate plan_id months) b.plan_discounts)

-- `0 <= percent <= 100`
abbrev pub is_percent : Money → Bool
is_percent p = leb_ℤ (pos 0) p && leb_ℤ p (pos 10000)

-- `gross - (gross * percent / Decimal("100"))`, of paise and hundredths of a percent, in rupees.
abbrev pub less_percent : Money → Money → Decimal
less_percent gross percent = record {
  coefficient = gross *ℤ pos 10000 -ℤ gross *ℤ percent;
  places = 6;
}

-- The price a month that is charged.
abbrev pub monthly_rate : Plan → Option Decimal → Money
unfolding as_money
monthly_rate plan none = as_money (two_places plan.monthly_price)
monthly_rate plan (some price) = as_money price

-- `quote_subscription`
unfoldable pub quote_subscription : Terms → ℕ → Plan → ℕ → Option Decimal → Result Quote
unfolding as_money discount_for
quote_subscription b user_id plan months negotiated_price =
    let monthly = monthly_rate plan negotiated_price in
    let rate = discount_for b user_id plan.id months in
    if not (is_allowed_duration months)
    then err (bad_request bad_duration)
    else if not plan.is_active
    then err (bad_request plan_retired)
    else if ltb_ℤ monthly (pos 0)
    then err (bad_request bad_plan_price)
    else if not (is_percent rate.0)
    then err (bad_request bad_percent)
    else ok (record {
      duration_months = months;
      monthly_price = monthly;
      discount_percent = as_money (two_places rate.0);
      total = as_money (less_percent (monthly *ℤ pos months) rate.0);
      negotiated = is_some negotiated_price;
      discount_source = rate.1;
    })
