-- ===== src/Payments/Earnings/Named.antt =====
-- The kiosks that a report names, each of them once.
use printvendo_backend.Prelude.{
  ◌==◌, if◌then◌else◌, ==_iff, Bool-cases, filter, any, ℕ, ◌≡◌, refl, ap, ◌∙◌, inl, inr, Bool, true,
  false, not, List, [], ◌∷◌,
}
use printvendo_backend.Payments.Earnings.{named_once}
use printvendo_backend.Payments.Earnings.Days.{AreDistinct}

any-filter_none : (p q : ℕ → Bool) (ks : List ℕ) → any p ks ≡ false → any p (filter q ks) ≡ false
any-filter_none p q [] h = refl
any-filter_none p q (k ∷ ks) h = elim (Bool-cases (p k)) [
  | inl hit ↦ let no : true ≡ false = rw hit at h in cc
  | inr miss ↦ elim (Bool-cases (q k)) [
    | inl stays ↦ rw (stays, miss) (any-filter_none p q ks (rw miss at h))
    | inr goes ↦ rw goes (any-filter_none p q ks (rw miss at h))
  ]
]

any-without : (v : ℕ) (ks : List ℕ) → any (λ j. j == v) (filter (λ j. not (j == v)) ks) ≡ false
any-without v [] = refl
any-without v (k ∷ ks) = elim (Bool-cases (k == v)) [
  | inl own ↦ rw own (any-without v ks)
  | inr other ↦ rw (other, other) (any-without v ks)
]

filter-AreDistinct : (q : ℕ → Bool) (ks : List ℕ) → AreDistinct ks → AreDistinct (filter q ks)
unfolding AreDistinct
filter-AreDistinct q [] d = tt
filter-AreDistinct q (k ∷ ks) d = elim (Bool-cases (q k)) [
  | inl stays ↦ rw stays (any-filter_none (λ j. j == k) q ks d.0, filter-AreDistinct q ks d.1)
  | inr goes ↦ rw goes (filter-AreDistinct q ks d.1)
]

pub named_once-AreDistinct : (ks : List ℕ) → AreDistinct (named_once ks)
unfolding AreDistinct named_once
named_once-AreDistinct [] = tt
named_once-AreDistinct (k ∷ ks) = (
  any-without k (named_once ks),
  filter-AreDistinct (λ j. not (j == k)) (named_once ks) (named_once-AreDistinct ks),
)

-- Leaving out a kiosk that a query does not match changes nothing of the answer.
any-but :
    (p : ℕ → Bool) (v : ℕ) (ks : List ℕ)
    → p v ≡ false
    → any p (filter (λ j. not (j == v)) ks) ≡ any p ks
any-but p v [] h = refl
any-but p v (k ∷ ks) h = elim (Bool-cases (k == v)) [
  | inl own ↦
      let miss : p k ≡ false = ap p ((==_iff k v).0 own) ∙ h in rw (own, miss) (any-but p v ks h)
  | inr other ↦ rw other (ap (λ b. if p k then true else b) (any-but p v ks h))
]

pub any-named_once : (p : ℕ → Bool) (ks : List ℕ) → any p (named_once ks) ≡ any p ks
unfolding named_once
any-named_once p [] = refl
any-named_once p (k ∷ ks) = elim (Bool-cases (p k)) [
  | inl hit ↦ rw hit refl
  | inr miss ↦ rw miss (any-but p k (named_once ks) miss ∙ any-named_once p ks)
]
