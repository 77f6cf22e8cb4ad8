-- ===== src/Billing/Subscriptions/Trials.antt =====
-- What a trial that is granted does to who is in force.
use printvendo_backend.Prelude.{
  ltb, ==_self, Bool-cases, is_some, any, any-later, any-update_where, short_trial, bad_request, ok,
  err-ok, ℕ, ◌+◌, ◌*◌, ◌<◌, ◌≡◌, refl, sym, ap, ◌∙◌, subst, ◌⊎◌, inl, inr, true, Option, none, some,
  arith,
}
use printvendo_backend.Billing.Models.{Subscription, Terms, is_subscription}
use printvendo_backend.Billing.Subscriptions.{
  effective_end, is_in_force, counts_for, active_subscription, has_active_subscription,
  extend_trial, new_trial, with_trial, trial_of, grant_trial,
}
use printvendo_backend.Billing.Subscriptions.InForce.{
  later-ends, is_in_force_any, has_active_subscription-any, longest-update_where,
}

-- A row whose trial is extended stays in force whenever it was, and until the new end.
extend_trial-keeps :
    (ends plan_id t u : ℕ) (s : Subscription)
    → counts_for t u s ≡ true
    → counts_for t u (extend_trial ends plan_id s) ≡ true
unfolding is_in_force
extend_trial-keeps ends plan_id t u s h =
    let after = is_in_force_any t (extend_trial ends plan_id s) in
    let before = is_in_force_any t s in
    let free = later-ends s.free_until (some ends) t in ground arith

extend_trial-lasts :
    (ends plan_id clock t u : ℕ) (s : Subscription)
    → t < ends
    → counts_for clock u s ≡ true
    → counts_for t u (extend_trial ends plan_id s) ≡ true
unfolding is_in_force
extend_trial-lasts ends plan_id clock t u s l h =
    let after = is_in_force_any t (extend_trial ends plan_id s) in
    let before = is_in_force_any clock s in
    let free = later-ends s.free_until (some ends) t in ground arith

new_trial-lasts :
    (user_id plan_id now ends id t : ℕ)
    → t < ends
    → counts_for t user_id (new_trial user_id plan_id now ends id) ≡ true
unfolding is_in_force effective_end
new_trial-lasts user_id plan_id now ends id t l = ground arith

with_trial-is : (o : Option Subscription) (s : Subscription) → with_trial o ≡ some s → o ≡ some s
with_trial-is none s h = absurd cc
with_trial-is (some a) s h = elim (Bool-cases (is_some a.free_until)) [
  | inl given ↦ rw given at h
  | inr missing ↦ let gone : none ≡ some s = rw missing at h in absurd cc
]

-- What a trial does to the rows, asked with any test of a row.
record IsGrant (user_id clock ends : ℕ) (b b' : Terms) : Type 0 where
  pub kept :
      (t u : ℕ)
      → any (counts_for t u) b.subscriptions ≡ true
      → any (counts_for t u) b'.subscriptions ≡ true
  pub granted : (t : ℕ) → t < ends → any (counts_for t user_id) b'.subscriptions ≡ true

trial_of-IsGrant :
    (o : Option Subscription) (user_id plan_id now clock ends : ℕ) (b : Terms)
    → ((s : Subscription) → o ≡ some s → active_subscription b clock user_id ≡ some s)
    → IsGrant user_id clock ends b (trial_of o user_id plan_id now ends b).1
unfolding active_subscription is_in_force
trial_of-IsGrant none user_id plan_id now clock ends b k = record {
  kept = λ t u h.
      any-later (counts_for t u) (new_trial user_id plan_id now ends b.next_id) b.subscriptions h;
  granted = λ t l. rw (new_trial-lasts user_id plan_id now ends b.next_id t l) refl;
}
trial_of-IsGrant (some s) user_id plan_id now clock ends b k = record {
  kept = λ t u h.
      any-update_where (counts_for t u) (is_subscription s.id) (extend_trial ends plan_id)
        b.subscriptions (extend_trial-keeps ends plan_id t u) h;
  granted = λ t l.
      longest-update_where (counts_for clock user_id) (is_subscription s.id) (counts_for t user_id)
        (extend_trial ends plan_id) s b.subscriptions (k s refl) (==_self s.id)
        (extend_trial-lasts ends plan_id clock t user_id s l);
}

-- When a trial is granted, its owner is in force at every moment before it ends, `days` whole days
-- from now; and whoever was in force at some moment still is in force at that moment.
pub grant_trial-extends :
    (user_id plan_id days now clock t u : ℕ) (b b' : Terms) (s : Subscription)
    → grant_trial user_id plan_id days now clock b ≡ (ok s, b')
    → ((u ≡ user_id) × (t < now + 86400 * days)) ⊎ (has_active_subscription b t u ≡ true)
    → has_active_subscription b' t u ≡ true
unfolding grant_trial
grant_trial-extends user_id plan_id days now clock t u b b' s h k = elim (Bool-cases (ltb days 1)) [
  | inl short ↦ err-ok (bad_request short_trial) s b b' (rw short at h)
  | inr long ↦
      let current = active_subscription b clock user_id in
      let ends = now + 86400 * days in
      let reached : (trial_of (with_trial current) user_id plan_id now ends b).1 ≡ b' =
        ap (λ z. z.1) (rw long at h) in
      let g = subst (IsGrant user_id clock ends b) reached (
        trial_of-IsGrant (with_trial current) user_id plan_id now clock ends b
          (with_trial-is current)) in
      has_active_subscription-any b' t u ∙ elim k [
        | inl (own, l) ↦
            subst (λ v. any (counts_for t v) b'.subscriptions ≡ true) (sym own) (g.granted t l)
        | inr was ↦ g.kept t u (sym (has_active_subscription-any b t u) ∙ was)
      ]
]
