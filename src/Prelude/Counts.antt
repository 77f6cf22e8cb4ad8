-- ===== src/Prelude/Counts.antt =====
-- How many rows of a table match a query, through what is written to them.
use Prim.Native.Nat.{ℕ, ◌+◌, ◌≤◌}
use mathlib.Core.Path.{◌≡◌, refl, sym, ◌∙◌, ap}
use mathlib.Core.Logic.{inl, inr}
use mathlib.Core.Bool.{Bool, true, false}
use mathlib.Core.Option.{none, some}
use mathlib.Core.List.{List, [], ◌∷◌}
use native.Mathlib.Omega.{arith}
use printvendo_backend.Prelude.Tests.{if◌then◌else◌, Bool-cases, true_not_false}
use printvendo_backend.Prelude.Lists.{find, update_where, any}

module _ {ℓ} {A : Type ℓ} where
  -- `SELECT count(*) WHERE p`
  abbrev pub count : (A → Bool) → List A → ℕ
  count p [] = 0
  count p (x ∷ xs) = (if p x then 1 else 0) + count p xs

  -- An UPDATE that makes no row match makes no more rows match.
  pub count-update_where :
      (p q : A → Bool) (f : A → A) (xs : List A)
      → ((x : A) → p (f x) ≡ true → p x ≡ true)
      → count p (update_where q f xs) ≤ count p xs
  count-update_where p q f [] k = omega arith
  count-update_where p q f (x ∷ xs) k =
      let rest = count-update_where p q f xs k in
      elim (Bool-cases (q x)) [
        | inr kept ↦ rw kept (omega arith)
        | inl changed ↦ elim (Bool-cases (p (f x))) [
          | inl hit ↦ rw (changed, hit, k x hit) (omega arith)
          | inr miss ↦ rw (changed, miss) (omega arith)
        ]
      ]

  pub count-none : (p : A → Bool) (xs : List A) → find p xs ≡ none → count p xs ≡ 0
  count-none p [] h = refl
  count-none p (x ∷ xs) h = elim (Bool-cases (p x)) [
    | inl hit ↦ let no : some x ≡ none = rw hit at h in absurd cc
    | inr miss ↦ let rest = count-none p xs (rw miss at h) in rw miss (omega arith)
  ]

  -- An UPDATE of the row that a query found, after which no row that it wrote matches.
  pub count-found :
      (p q : A → Bool) (f : A → A) (a : A) (xs : List A)
      → find p xs ≡ some a
      → q a ≡ true
      → ((x : A) → p (f x) ≡ false)
      → count p (update_where q f xs) + 1 ≤ count p xs
  count-found p q f a [] h hq k = absurd cc
  count-found p q f a (x ∷ xs) h hq k = elim (Bool-cases (p x)) [
    | inl hit ↦
        let here : some x ≡ some a = rw hit at h in
        let same : x ≡ a = cc in
        let changed : q x ≡ true = ap q same ∙ hq in
        let rest = count-update_where p q f xs (λ y e. true_not_false (sym e ∙ k y)) in
        rw (changed, k x, hit) (omega arith)
    | inr miss ↦
        let rest = count-found p q f a xs (rw miss at h) hq k in
        elim (Bool-cases (q x)) [
          | inl changed ↦ rw (changed, k x, miss) (omega arith)
          | inr kept ↦ rw (kept, miss) (omega arith)
        ]
  ]

  -- A query that no row matches: none does after an UPDATE that makes none match, nor any that asks
  -- for more.
  pub none-update_where :
      (p q : A → Bool) (f : A → A) (xs : List A)
      → ((x : A) → p x ≡ false → p (f x) ≡ false)
      → any p xs ≡ false
      → any p (update_where q f xs) ≡ false
  none-update_where p q f [] k h = refl
  none-update_where p q f (x ∷ xs) k h = elim (Bool-cases (p x)) [
    | inl hit ↦ true_not_false (rw hit at h)
    | inr miss ↦
        let rest = none-update_where p q f xs k (rw miss at h) in
        elim (Bool-cases (q x)) [
          | inl changed ↦ rw (changed, k x miss) rest
          | inr kept ↦ rw (kept, miss) rest
        ]
  ]

  pub none-fewer :
      (p q : A → Bool) (xs : List A)
      → ((x : A) → p x ≡ false → q x ≡ false)
      → any p xs ≡ false
      → any q xs ≡ false
  none-fewer p q [] k h = refl
  none-fewer p q (x ∷ xs) k h = elim (Bool-cases (p x)) [
    | inl hit ↦ true_not_false (rw hit at h)
    | inr miss ↦ rw (k x miss) (none-fewer p q xs k (rw miss at h))
  ]

  -- The row that a query finds matches no query that no row matches.
  pub find-none :
      (p q : A → Bool) (a : A) (xs : List A) → find q xs ≡ some a → any p xs ≡ false → p a ≡ false
  find-none p q a [] h k = absurd cc
  find-none p q a (x ∷ xs) h k = elim (Bool-cases (p x)) [
    | inl hit ↦ true_not_false (rw hit at k)
    | inr miss ↦ elim (Bool-cases (q x)) [
      | inl found ↦
          let here : some x ≡ some a = rw found at h in
          let same : x ≡ a = cc in ap p (sym same) ∙ miss
      | inr other ↦ find-none p q a xs (rw other at h) (rw miss at k)
    ]
  ]

  -- An UPDATE after which no row matches: what is written does not, nor what is left as it was.
  pub none-written :
      (p before q : A → Bool) (f : A → A) (xs : List A)
      → ((x : A) → q x ≡ true → p (f x) ≡ false)
      → ((x : A) → q x ≡ false → before x ≡ false → p x ≡ false)
      → any before xs ≡ false
      → any p (update_where q f xs) ≡ false
  none-written p before q f [] k l h = refl
  none-written p before q f (x ∷ xs) k l h = elim (Bool-cases (before x)) [
    | inl hit ↦ true_not_false (rw hit at h)
    | inr miss ↦
        let rest = none-written p before q f xs k l (rw miss at h) in
        elim (Bool-cases (q x)) [
          | inl changed ↦ rw (changed, k x changed) rest
          | inr kept ↦ rw (kept, l x kept miss) rest
        ]
  ]
