-- ===== src/Billing/Examples.antt =====
-- Tests and instances of the theorems on what owners pay.
use printvendo_backend.Prelude.{
  pos, ◌-ℤ◌, ◌*ℤ◌, ok, ℕ, ◌≡◌, refl, inl, true, false, none, some, List, [], ◌∷◌, map, arith,
}
use printvendo_backend.Money.{as_money}
use printvendo_backend.Billing.Models.{
  pending_payment, active, cancelled, Plan, Subscription, Terms, write_subscription,
}
use printvendo_backend.Billing.Quotes.{
  from_owner, from_plan, Quote, discount_for, quote_subscription,
}
use printvendo_backend.Billing.Quotes.Bounds.{IsSale, quote_subscription-IsSale}
use printvendo_backend.Billing.Discounts.{check_discount, owner_rate_row, set_owner_discount}
use printvendo_backend.Billing.Discounts.Lookup.{set_owner_discount-lookup}
use printvendo_backend.Billing.Subscriptions.{
  effective_end, is_in_force, active_subscription, has_active_subscription, extend_trial, new_trial,
  grant_trial,
}
use printvendo_backend.Billing.Subscriptions.Trials.{grant_trial-extends}
use printvendo_backend.Billing.Purchase.{
  purchase_row, start_purchase, in_force_from, activate_subscription, BillingEvent, buys, is_paid,
  bill, run_billing,
}
use printvendo_backend.Billing.Purchase.Pending.{AreSingle, run_billing-AreSingle}
use printvendo_backend.Billing.Purchase.Term.{IsTerm, activate_subscription-IsTerm, activate_again}

-- 499 rupees a month.
abbrev basic : Plan
basic = record {
  id = 1;
  name = "Basic";
  monthly_price = pos 49900;
  max_kiosks = 1;
  price_floor_bw = none;
  price_ceiling_bw = none;
  price_floor_color = none;
  price_ceiling_color = none;
  is_active = true;
}

-- A year with 12.5 percent off.
abbrev market : Terms
market = record {
  plans = basic ∷ [];
  plan_discounts = record { plan_id = 1; duration_months = 12; percent = pos 1250 } ∷ [];
  owner_discounts = [];
  subscriptions = [];
  next_id = 1;
}

abbrev year : Quote
year = record {
  duration_months = 12;
  monthly_price = pos 49900;
  discount_percent = pos 1250;
  total = pos 523950;
  negotiated = false;
  discount_source = from_plan;
}

year_quote : quote_subscription market 7 basic 12 none ≡ ok year
unfolding quote_subscription discount_for as_money ◌*ℤ◌ ◌-ℤ◌
year_quote = refl

quote_subscription-IsSale_example : IsSale market 7 basic 12 none year
quote_subscription-IsSale_example = quote_subscription-IsSale market 7 basic 12 none year year_quote

-- A month is bought at 100, paid at 200, and once more at 1000 for six months that are abandoned.
abbrev purchases : List (BillingEvent × ℕ)
purchases =
    (buys 7 basic 1, 100)
    ∷ (is_paid 1, 200)
    ∷ (buys 7 basic 6, 1000)
    ∷ (buys 7 basic 6, 1100)
    ∷ (buys 7 basic 12, 9000)
    ∷ []

statuses_after :
    map (λ s. s.status) (run_billing purchases market).subscriptions
    ≡ pending_payment ∷ cancelled ∷ active ∷ []
unfolding run_billing bill start_purchase activate_subscription quote_subscription discount_for
    active_subscription is_in_force effective_end as_money ◌*ℤ◌ ◌-ℤ◌
statuses_after = refl

run_billing-AreSingle_example : AreSingle (run_billing purchases market)
run_billing-AreSingle_example = run_billing-AreSingle purchases market (λ u. omega arith)

abbrev paid_for : Subscription
paid_for = purchase_row 7 basic none 100 year 5

abbrev on_trial : Subscription
on_trial = new_trial 7 1 50 5000 4

abbrev with_trials : Terms
with_trials = record market { subscriptions = paid_for ∷ on_trial ∷ []; next_id = 6 }

activate_subscription-IsTerm_example :
    let b' = write_subscription 5 (in_force_from 5000 12) with_trials in
    IsTerm (some on_trial) 300 paid_for (in_force_from 5000 12 paid_for)
    × (has_active_subscription b' 31104000 7 ≡ true)
unfolding activate_subscription active_subscription is_in_force effective_end
activate_subscription-IsTerm_example =
    activate_subscription-IsTerm paid_for (in_force_from 5000 12 paid_for) 300 300 31104000
      with_trials (write_subscription 5 (in_force_from 5000 12) with_trials) refl refl refl
      (omega arith)

activated_once :
    activate_subscription
      (in_force_from 5000 12 paid_for)
      400
      400
      (write_subscription 5 (in_force_from 5000 12) with_trials)
    ≡ (
      ok (in_force_from 5000 12 paid_for),
      write_subscription 5 (in_force_from 5000 12) with_trials,
    )
unfolding activate_subscription active_subscription is_in_force effective_end
activated_once =
    activate_again paid_for (in_force_from 5000 12 paid_for) 300 300 400 400 with_trials
      (write_subscription 5 (in_force_from 5000 12) with_trials) refl

grant_trial-extends_example :
    has_active_subscription (write_subscription 4 (extend_trial 86700 1) with_trials) 86699 7 ≡ true
unfolding grant_trial active_subscription is_in_force effective_end
grant_trial-extends_example =
    grant_trial-extends 7 1 1 300 300 86699 7 with_trials
      (write_subscription 4 (extend_trial 86700 1) with_trials) (extend_trial 86700 1 on_trial) refl
      (inl (refl, omega arith))

set_owner_discount-lookup_example :
    discount_for
      (record market { owner_discounts = owner_rate_row 7 12 (pos 2000) none (some 1) ∷ [] })
      7
      1
      12
    ≡ (pos 2000, from_owner)
unfolding set_owner_discount check_discount discount_for as_money
set_owner_discount-lookup_example =
    set_owner_discount-lookup 7 12 (record { coefficient = pos 20; places = 0 }) (some 1) none
      market (record market { owner_discounts = owner_rate_row 7 12 (pos 2000) none (some 1) ∷ [] })
      (owner_rate_row 7 12 (pos 2000) none (some 1)) 7 1 12 refl

-- The longest subscription is through its paid month at 1000 and in its grace; another trial runs
-- until 2000. The term that is bought starts at 1000, while that trial runs.
abbrev in_grace : Subscription
in_grace = record paid_for {
  id = 6;
  status = active;
  expires_at = some 1000;
  grace_ends_at = some 433000;
}

abbrev second_trial : Subscription
second_trial = new_trial 7 1 50 2000 7

trial_ignored :
    (activate_subscription paid_for 900 900
      (record with_trials { subscriptions = paid_for ∷ in_grace ∷ second_trial ∷ [] })).0
    ≡ ok (in_force_from 1000 12 paid_for)
unfolding activate_subscription active_subscription is_in_force effective_end
trial_ignored = refl
