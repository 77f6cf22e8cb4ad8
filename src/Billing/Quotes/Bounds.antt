-- ===== src/Billing/Quotes/Bounds.antt =====
-- What a discount may come to.
use printvendo_backend.Prelude.{
  Bool-cases, Option-cases, is_some, find, ℤ, pos, negsuc, pos_part, ◌+ℤ◌, ◌-ℤ◌, ◌*ℤ◌, ◌≤ℤ◌, ltb_ℤ,
  *ℤ_parts, int_laws, bad_duration, bad_percent, bad_plan_price, plan_retired, bad_request, ok,
  ok-injective, refused-ok, ℕ, ◌+◌, ◌-◌, ◌*◌, ◌≤◌, ◌≡◌, refl, sym, ap, subst, inl, inr, true,
  Option, none, some, arith,
}
use printvendo_backend.Money.{Decimal, Money, as_money}
use printvendo_backend.Money.Rounding.{as_money-two_places, as_money_near}
use printvendo_backend.Billing.Models.{Plan, PlanDiscount, OwnerDiscount, Terms}
use printvendo_backend.Billing.Quotes.{
  DiscountSource, from_owner, from_plan, no_discount, Quote, is_allowed_duration, is_owner_rate,
  is_plan_rate, discount_for, is_percent, less_percent, monthly_rate, quote_subscription,
}

-- A price between nothing and `full`, and within half a paisa of `full` less the percentage.
pub record IsFairTotal (full percent total : Money) : Type 0 where
  pub not_negative : pos 0 ≤ℤ total
  pub not_above : total ≤ℤ full
  pub not_high : pos 20000 *ℤ total ≤ℤ pos 2 *ℤ (full *ℤ (pos 10000 -ℤ percent)) +ℤ pos 10000
  pub not_low : pos 2 *ℤ (full *ℤ (pos 10000 -ℤ percent)) ≤ℤ pos 20000 *ℤ total +ℤ pos 10000

-- What is left of a hundred percent.
rest_of : (p : ℕ) → p ≤ 10000 → (q : ℕ) × (q + p ≡ 10000)
rest_of p h = (10000 - p, omega arith)

-- The same, of natural numbers: `p` and `q` make a hundred percent.
near_total :
    (g p q : ℕ) (total : ℤ)
    → q + p ≡ 10000
    → (pos 20000 *ℤ total ≤ℤ pos 2 *ℤ pos (g * q) +ℤ pos 10000)
      × (pos 2 *ℤ pos (g * q) ≤ℤ pos 20000 *ℤ total +ℤ pos 10000)
    → IsFairTotal (pos g) (pos p) total
near_total g p q total h near =
    let split : g * (q + p) ≡ g * 10000 = ap (λ (t : ℕ). g * t) h in
    let above = near.0 in
    let below = near.1 in
    let left : pos 10000 -ℤ pos p ≡ pos q = omega int_laws in
    let factored : pos g *ℤ pos q ≡ pos (g * q) = omega int_laws in
    let twice_total = *ℤ_parts (pos 20000) total in
    record {
      not_negative = grind int_laws;
      not_above = grind int_laws;
      not_high = rw (left, factored) above;
      not_low = rw (left, factored) below;
    }

as_pos : (a : ℤ) → pos 0 ≤ℤ a → pos (pos_part a) ≡ a
as_pos (pos n) h = refl
as_pos (negsuc n) h = omega int_laws

exact_coefficient : (g p q : ℕ) → q + p ≡ 10000 → pos g *ℤ pos 10000 -ℤ pos g *ℤ pos p ≡ pos (g * q)
exact_coefficient g p q h =
    let split : g * (q + p) ≡ g * 10000 = ap (λ (t : ℕ). g * t) h in omega int_laws

discounted_pos :
    (g p : ℕ) → p ≤ 10000 → IsFairTotal (pos g) (pos p) (as_money (less_percent (pos g) (pos p)))
discounted_pos g p u =
    let q = (rest_of p u).0 in
    let h = (rest_of p u).1 in
    subst (λ c. IsFairTotal (pos g) (pos p) (as_money (record { coefficient = c; places = 6 })))
      (sym (exact_coefficient g p q h))
      (near_total g p q (as_money (record { coefficient = pos (g * q); places = 6 })) h
        (as_money_near 4 (pos (g * q))))

pub discounted :
    (full percent : Money)
    → pos 0 ≤ℤ full
    → pos 0 ≤ℤ percent
    → percent ≤ℤ pos 10000
    → IsFairTotal full percent (as_money (less_percent full percent))
discounted (pos g) (pos p) f l u = discounted_pos g p (omega int_laws)
discounted (negsuc g) percent f l u = absurd (omega int_laws)
discounted (pos g) (negsuc p) f l u = absurd (omega int_laws)

-- The discount of a term, and where it comes from: the owner's own rate when there is one, or else
-- the plan's when there is one, or else none.
abbrev pub IsRate : Terms → ℕ → ℕ → ℕ → Money → DiscountSource → Type 0
IsRate b user_id plan_id months percent from_owner =
    (d : OwnerDiscount) × (find (is_owner_rate user_id months) b.owner_discounts ≡ some d)
    × (d.percent ≡ percent)
IsRate b user_id plan_id months percent from_plan =
    (d : PlanDiscount) × (find (is_owner_rate user_id months) b.owner_discounts ≡ none)
    × (find (is_plan_rate plan_id months) b.plan_discounts ≡ some d)
    × (d.percent ≡ percent)
IsRate b user_id plan_id months percent no_discount =
    (find (is_owner_rate user_id months) b.owner_discounts ≡ none)
    × (find (is_plan_rate plan_id months) b.plan_discounts ≡ none)
    × (percent ≡ pos 0)

discount_for-IsRate :
    (b : Terms) (user_id plan_id months : ℕ)
    → let rate = discount_for b user_id plan_id months in
      IsRate b user_id plan_id months rate.0 rate.1
unfolding discount_for
discount_for-IsRate b user_id plan_id months =
    elim (Option-cases (find (is_owner_rate user_id months) b.owner_discounts)) [
      | inr (d, own) ↦ rw own (d, own, refl)
      | inl unowned ↦ elim (Option-cases (find (is_plan_rate plan_id months) b.plan_discounts)) [
        | inr (d, published) ↦ rw (unowned, published) (d, unowned, published, refl)
        | inl unpublished ↦ rw (unowned, unpublished) (unowned, unpublished, refl)
      ]
    ]

-- The price a month: what was negotiated, rounded to paise, or else the plan's.
abbrev pub asked_price : Plan → Option Decimal → Money
asked_price plan none = plan.monthly_price
asked_price plan (some price) = as_money price

monthly_rate-asked :
    (plan : Plan) (price : Option Decimal) → monthly_rate plan price ≡ asked_price plan price
unfolding monthly_rate
monthly_rate-asked plan none = as_money-two_places plan.monthly_price
monthly_rate-asked plan (some price) = refl

-- What a quote that is given says of the sale.
pub record IsSale (b : Terms) (user_id : ℕ) (plan : Plan) (months : ℕ) (price : Option Decimal)
    (q : Quote) : Type 0 where
  pub sold : plan.is_active ≡ true
  pub whole_term : is_allowed_duration months ≡ true
  pub term : q.duration_months ≡ months
  pub rate : IsRate b user_id plan.id months q.discount_percent q.discount_source
  pub asked : q.monthly_price ≡ asked_price plan price
  pub named : q.negotiated ≡ is_some price
  pub not_negative : pos 0 ≤ℤ q.monthly_price
  pub total : IsFairTotal (q.monthly_price *ℤ pos months) q.discount_percent q.total

is_percent_range : (p : Money) → is_percent p ≡ true → (pos 0 ≤ℤ p) × (p ≤ℤ pos 10000)
is_percent_range p h = (ground arith, ground arith)

times_months : (price : Money) (m : ℕ) → pos 0 ≤ℤ price → pos 0 ≤ℤ price *ℤ pos m
times_months (pos n) m h = omega int_laws
times_months (negsuc n) m h = absurd (omega int_laws)

-- A quote is given for a plan that is on sale and a term of one, six or twelve months only. Its
-- monthly price is the negotiated one, rounded to paise, or else the plan's, and is not negative; its
-- discount is the owner's own rate for the term, or else the plan's, or else none; and its total is
-- between nothing and the monthly price for every month, and within half a paisa of that less the
-- discount.
pub quote_subscription-IsSale :
    (b : Terms) (user_id : ℕ) (plan : Plan) (months : ℕ) (price : Option Decimal) (q : Quote)
    → quote_subscription b user_id plan months price ≡ ok q
    → IsSale b user_id plan months price q
unfolding quote_subscription
quote_subscription-IsSale b user_id plan months price q h =
    let monthly = monthly_rate plan price in
    let rate = discount_for b user_id plan.id months in
    elim (Bool-cases (is_allowed_duration months)) [
      | inr odd ↦ refused-ok (bad_request bad_duration) q (rw odd at h)
      | inl whole ↦ elim (Bool-cases plan.is_active) [
        | inr retired ↦ refused-ok (bad_request plan_retired) q (rw (whole, retired) at h)
        | inl sold ↦ elim (Bool-cases (ltb_ℤ monthly (pos 0))) [
          | inl below ↦ refused-ok (bad_request bad_plan_price) q (rw (whole, sold, below) at h)
          | inr priced ↦ elim (Bool-cases (is_percent rate.0)) [
            | inr beyond ↦
                refused-ok (bad_request bad_percent) q (rw (whole, sold, priced, beyond) at h)
            | inl within ↦
                let range = is_percent_range rate.0 within in
                let not_below : pos 0 ≤ℤ monthly = ground arith in
                let exact = as_money-two_places rate.0 in
                subst (IsSale b user_id plan months price)
                  (ok-injective _ q (rw (whole, sold, priced, within) at h))
                  (record {
                    sold = sold;
                    whole_term = whole;
                    term = refl;
                    rate = rw exact (discount_for-IsRate b user_id plan.id months);
                    asked = monthly_rate-asked plan price;
                    named = refl;
                    not_negative = not_below;
                    total = rw exact (
                        discounted (monthly *ℤ pos months) rate.0
                          (times_months monthly months not_below) range.0 range.1);
                  })
          ]
        ]
      ]
    ]
