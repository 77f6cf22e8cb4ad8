-- ===== src/Prelude/Lists.antt =====
-- Lists measured by native numbers, tables as lists of rows, and predicates on every row.
use Prim.Native.Nat.{ℕ, suc}
use mathlib.Core.Path.{◌≡◌, refl, sym, ◌∙◌, ap, subst}
use mathlib.Core.Logic.{inl, inr}
use mathlib.Core.Bool.{Bool, true, false}
use mathlib.Core.Option
use mathlib.Core.Option.{Option, none, some}
use mathlib.Core.List.{List, [], ◌∷◌, ◌++◌}
use printvendo_backend.Prelude.Tests.{if◌then◌else◌, Bool-cases}

module _ {ℓ} {A : Type ℓ} where
  abbrev pub length : List A → ℕ
  length [] = 0
  length (x ∷ xs) = suc (length xs)

  -- `[x for x in xs if p(x)]`
  abbrev pub filter : (A → Bool) → List A → List A
  filter p [] = []
  filter p (x ∷ xs) = if p x then x ∷ filter p xs else filter p xs

  -- The first row that a query matches, or nothing.
  abbrev pub find : (A → Bool) → List A → Option A
  find p [] = none
  find p (x ∷ xs) = if p x then some x else find p xs

  -- Whether some row matches.
  abbrev pub any : (A → Bool) → List A → Bool
  any p [] = false
  any p (x ∷ xs) = if p x then true else any p xs

  abbrev pub all : (A → Bool) → List A → Bool
  all p [] = true
  all p (x ∷ xs) = if p x then all p xs else false

  -- `UPDATE … SET f WHERE p`
  abbrev pub update_where : (A → Bool) → (A → A) → List A → List A
  update_where p f [] = []
  update_where p f (x ∷ xs) = (if p x then f x else x) ∷ update_where p f xs

  -- A predicate of every row.
  abbrev pub All {κ} : (A → Type κ) → List A → Type κ
  All P [] = Unit
  All P (x ∷ xs) = P x × All P xs

  pub All-map {κ μ} :
      (P : A → Type κ) (Q : A → Type μ) (xs : List A) → ((x : A) → P x → Q x) → All P xs → All Q xs
  All-map P Q [] f h = tt
  All-map P Q (x ∷ xs) f h = (f x h.0, All-map P Q xs f h.1)

  pub All-append {κ} : (P : A → Type κ) (xs ys : List A) → All P xs → All P ys → All P (xs ++ ys)
  All-append P [] ys hx hy = hy
  All-append P (x ∷ xs) ys hx hy = (hx.0, All-append P xs ys hx.1 hy)

  -- What holds of every row holds of the row that a query finds.
  pub find-All {κ} :
      (P : A → Type κ) (p : A → Bool) (xs : List A) (a : A)
      → All P xs
      → find p xs ≡ some a
      → P a × (p a ≡ true)
  find-All P p [] a h e = cc
  find-All P p (x ∷ xs) a h e = elim (Bool-cases (p x)) [
    | inl found ↦
        let here : some x ≡ some a = rw found at e in
        let same : x ≡ a = cc in (subst P same h.0, subst (λ y. p y ≡ true) same found)
    | inr other ↦ find-All P p xs a h.1 (rw other at e)
  ]

  pub filter-append :
      (p : A → Bool) (xs ys : List A) → filter p (xs ++ ys) ≡ filter p xs ++ filter p ys
  filter-append p [] ys = refl
  filter-append p (x ∷ xs) ys = elim (Bool-cases (p x)) [
    | inl kept ↦ rw kept (ap (◌∷◌ x) (filter-append p xs ys))
    | inr left_out ↦ rw left_out (filter-append p xs ys)
  ]

  -- An UPDATE that keeps what a query reads is seen through the query.
  pub find-update_where :
      (p q : A → Bool) (f : A → A) (xs : List A)
      → ((x : A) → p (f x) ≡ p x)
      → find p (update_where q f xs) ≡ Option.map (λ x. if q x then f x else x) (find p xs)
  find-update_where p q f [] same = refl
  find-update_where p q f (x ∷ xs) same = elim (Bool-cases (q x)) [
    | inl changed ↦ elim (Bool-cases (p x)) [
      | inl found ↦ rw (changed, same x, found) (rw changed)
      | inr other ↦ rw (changed, same x, other) (find-update_where p q f xs same)
    ]
    | inr kept ↦ elim (Bool-cases (p x)) [
      | inl found ↦ rw (kept, found) (rw kept)
      | inr other ↦ rw (kept, other) (find-update_where p q f xs same)
    ]
  ]

  -- A query that matches a row which another query found finds some row.
  pub find-hits :
      (p q : A → Bool) (xs : List A) (a : A)
      → find p xs ≡ some a
      → q a ≡ true
      → (b : A) × (find q xs ≡ some b)
  find-hits p q [] a e h = cc
  find-hits p q (x ∷ xs) a e h = elim (Bool-cases (q x)) [
    | inl hit ↦ (x, rw hit)
    | inr miss ↦ elim (Bool-cases (p x)) [
      | inl found ↦
          let here : some x ≡ some a = rw found at e in
          let same : x ≡ a = cc in let no : true ≡ false = sym h ∙ ap q (sym same) ∙ miss in cc
      | inr other ↦ rw miss (find-hits p q xs a (rw other at e) h)
    ]
  ]

  -- The row that a query finds matches it.
  pub find-hit : (p : A → Bool) (xs : List A) (a : A) → find p xs ≡ some a → p a ≡ true
  find-hit p [] a e = cc
  find-hit p (x ∷ xs) a e = elim (Bool-cases (p x)) [
    | inl found ↦
        let here : some x ≡ some a = rw found at e in
        let same : x ≡ a = cc in subst (λ y. p y ≡ true) same found
    | inr other ↦ find-hit p xs a (rw other at e)
  ]

  -- A row that is written over the one a query finds is found by it, when it matches the query.
  pub find-update_where_hit :
      (p q : A → Bool) (a a' : A) (xs : List A)
      → find p xs ≡ some a
      → q a ≡ true
      → p a' ≡ true
      → find p (update_where q (λ _. a') xs) ≡ some a'
  find-update_where_hit p q a a' [] e h k = absurd (cc)
  find-update_where_hit p q a a' (x ∷ xs) e h k = elim (Bool-cases (q x)) [
    | inl written ↦ rw (written, k) refl
    | inr kept ↦ elim (Bool-cases (p x)) [
      | inl found ↦
          let here : some x ≡ some a = rw found at e in
          let same : x ≡ a = cc in let no : false ≡ true = sym kept ∙ ap q same ∙ h in absurd (cc)
      | inr other ↦ rw (kept, other) (find-update_where_hit p q a a' xs (rw other at e) h k)
    ]
  ]

  -- Writing the same row twice is writing it once.
  pub update_where_twice :
      (q : A → Bool) (a : A) (xs : List A)
      → q a ≡ true
      → update_where q (λ _. a) (update_where q (λ _. a) xs) ≡ update_where q (λ _. a) xs
  update_where_twice q a [] h = refl
  update_where_twice q a (x ∷ xs) h = elim (Bool-cases (q x)) [
    | inl written ↦ rw (written, h) (ap (◌∷◌ a) (update_where_twice q a xs h))
    | inr kept ↦ rw (kept, kept) (ap (◌∷◌ x) (update_where_twice q a xs h))
  ]

  pub any-later : (p : A → Bool) (x : A) (xs : List A) → any p xs ≡ true → any p (x ∷ xs) ≡ true
  any-later p x xs h = elim (Bool-cases (p x)) [
    | inl hit ↦ rw hit refl
    | inr miss ↦ rw (miss, h) refl
  ]

  -- An UPDATE that keeps the rows that match keeps that there is one.
  pub any-update_where :
      (p q : A → Bool) (f : A → A) (xs : List A)
      → ((x : A) → p x ≡ true → p (f x) ≡ true)
      → any p xs ≡ true
      → any p (update_where q f xs) ≡ true
  any-update_where p q f [] k h = h
  any-update_where p q f (x ∷ xs) k h = elim (Bool-cases (p x)) [
    | inl hit ↦ elim (Bool-cases (q x)) [
      | inl changed ↦ rw (changed, k x hit) refl
      | inr kept ↦ rw (kept, hit) refl
    ]
    | inr miss ↦
        any-later p (if q x then f x else x) (update_where q f xs)
          (any-update_where p q f xs k (rw miss at h))
  ]

  -- The row that a query finds is there after an UPDATE, as it was changed.
  pub find-update_where-any :
      (q r : A → Bool) (f : A → A) (a : A) (xs : List A)
      → find q xs ≡ some a
      → q a ≡ true
      → r (f a) ≡ true
      → any r (update_where q f xs) ≡ true
  find-update_where-any q r f a [] h hq hr = absurd cc
  find-update_where-any q r f a (x ∷ xs) h hq hr = elim (Bool-cases (q x)) [
    | inl hit ↦
        let here : some x ≡ some a = rw hit at h in let same : x ≡ a = cc in rw (hit, same, hr) refl
    | inr miss ↦
        any-later r (if q x then f x else x) (update_where q f xs)
          (find-update_where-any q r f a xs (rw miss at h) hq hr)
  ]
