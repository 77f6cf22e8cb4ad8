-- ===== src/Billing/Subscriptions/InForce.antt =====
-- Until when an owner is entitled, read off the rows.
use printvendo_backend.Prelude.{
  leb, if◌then◌else◌, Bool-cases, is_some, get_or, filter, any, update_where, any-later, ℕ, ◌≡◌,
  refl, sym, ap, ◌∙◌, ◌⊎◌, inl, inr, Bool, true, ◌&&◌, ◌||◌, Option, none, some, List, [], ◌∷◌,
  arith,
}
use printvendo_backend.Billing.Models.{Subscription, Terms, is_active_status}
use printvendo_backend.Billing.Subscriptions.{
  later, effective_end, ends_after, is_in_force, counts_for, longer, longest, active_subscription,
  has_active_subscription,
}

pub later-ends :
    (a b : Option ℕ) (t : ℕ) → ends_after (later a b) t ≡ (ends_after a t || ends_after b t)
later-ends none b t = refl
later-ends (some a) none t = ground arith
later-ends (some a) (some b) t = ground arith

-- Of the three ends of a subscription, any may keep it in force.
pub is_in_force_any :
    (t : ℕ) (s : Subscription)
    → is_in_force t s ≡ (
        is_active_status s.status
        && (ends_after s.free_until t
            || (ends_after s.grace_ends_at t || ends_after s.expires_at t)))
unfolding is_in_force effective_end
is_in_force_any t s =
    rw
      (
        later-ends s.free_until (later s.grace_ends_at s.expires_at) t,
        later-ends s.grace_ends_at s.expires_at t,
      )
      refl

is_some-longer : (s : Subscription) (o : Option Subscription) → is_some (longer s o) ≡ true
unfolding effective_end
is_some-longer s none = refl
is_some-longer s (some best) =
    elim (Bool-cases (leb (get_or (effective_end best) 0) (get_or (effective_end s) 0))) [
      | inl first ↦ rw first refl
      | inr second ↦ rw second refl
    ]

longest-any :
    (p : Subscription → Bool) (xs : List Subscription) → is_some (longest (filter p xs)) ≡ any p xs
unfolding effective_end
longest-any p [] = refl
longest-any p (x ∷ xs) = elim (Bool-cases (p x)) [
  | inl hit ↦ rw hit (is_some-longer x (longest (filter p xs)))
  | inr miss ↦ rw miss (longest-any p xs)
]

-- An owner has a subscription in force when one of their rows is.
pub has_active_subscription-any :
    (b : Terms) (t u : ℕ) → has_active_subscription b t u ≡ any (counts_for t u) b.subscriptions
unfolding has_active_subscription active_subscription is_in_force
has_active_subscription-any b t u = longest-any (counts_for t u) b.subscriptions

-- The longest of some rows is one of them.
longer-cases :
    (s a : Subscription) (o : Option Subscription) → longer s o ≡ some a → (s ≡ a) ⊎ (o ≡ some a)
unfolding effective_end
longer-cases s a none h = inl cc
longer-cases s a (some best) h =
    elim (Bool-cases (leb (get_or (effective_end best) 0) (get_or (effective_end s) 0))) [
      | inl first ↦ let here : some s ≡ some a = rw first at h in inl cc
      | inr second ↦ inr (rw second at h)
    ]

-- A row that is changed where it stands is there, changed.
pub longest-update_where :
    (p q r : Subscription → Bool) (f : Subscription → Subscription) (a : Subscription)
    (xs : List Subscription)
    → longest (filter p xs) ≡ some a
    → q a ≡ true
    → (p a ≡ true → r (f a) ≡ true)
    → any r (update_where q f xs) ≡ true
unfolding effective_end
longest-update_where p q r f a [] h hq hr = absurd (cc)
longest-update_where p q r f a (x ∷ xs) h hq hr = elim (Bool-cases (p x)) [
  | inr miss ↦
      any-later r ((if q x then f x else x)) (update_where q f xs)
        (longest-update_where p q r f a xs (rw miss at h) hq hr)
  | inl hit ↦ elim (longer-cases x a (longest (filter p xs)) (rw hit at h)) [
    | inl here ↦
        let changed : q x ≡ true = ap q here ∙ hq in
        rw (changed, ap (λ z. r (f z)) here ∙ hr (sym (ap p here) ∙ hit)) refl
    | inr rest ↦
        any-later r ((if q x then f x else x)) (update_where q f xs)
          (longest-update_where p q r f a xs rest hq hr)
  ]
]
