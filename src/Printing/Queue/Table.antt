-- ===== src/Printing/Queue/Table.antt =====
-- The table of print tasks: rows with ids of their own, and what writing one row does to the others.
use printvendo_backend.Prelude.{
  ◌==◌, ==_self, Bool-cases, filter, find, any, update_where, All, ℤ, pos, pos_part, neg_part, ◌+ℤ◌,
  int_laws, ℕ, ◌≤◌, ◌≡◌, refl, sym, ap, subst, ◌⊎◌, inl, inr, Bool, true, false, some, List, [],
  ◌∷◌, ◌++◌, arith,
}
use printvendo_backend.Printing.Queue.{next_id}
use printvendo_backend.Printing.Models.{PrintTask, has_id}

-- No two rows have one id.
abbrev pub Distinct : List PrintTask → Type 0
Distinct [] = Unit
Distinct (t ∷ ts) = (any (has_id t.id) ts ≡ false) × Distinct ts

abbrev pub IsIn : PrintTask → List PrintTask → Type 0
IsIn t [] = ⊥
IsIn t (x ∷ xs) = (x ≡ t) ⊎ IsIn t xs

pub find-IsIn :
    (p : PrintTask → Bool) (xs : List PrintTask) (t : PrintTask) → find p xs ≡ some t → IsIn t xs
find-IsIn p [] t h = cc
find-IsIn p (x ∷ xs) t h = elim (Bool-cases (p x)) [
  | inl found ↦ let here : some x ≡ some t = rw found at h in inl (cc)
  | inr other ↦ inr (find-IsIn p xs t (rw other at h))
]

pub find-hit :
    (p : PrintTask → Bool) (xs : List PrintTask) (t : PrintTask) → find p xs ≡ some t → p t ≡ true
find-hit p [] t h = cc
find-hit p (x ∷ xs) t h = elim (Bool-cases (p x)) [
  | inl found ↦
      let here : some x ≡ some t = rw found at h in
      let same : x ≡ t = cc in subst (λ y. p y ≡ true) same found
  | inr other ↦ find-hit p xs t (rw other at h)
]

pub filter-IsIn :
    (p : PrintTask → Bool) (xs : List PrintTask) (t : PrintTask)
    → IsIn t (filter p xs)
    → IsIn t xs × (p t ≡ true)
filter-IsIn p [] t h = absurd h
filter-IsIn p (x ∷ xs) t h = elim (Bool-cases (p x)) [
  | inl kept ↦ filter_head p x xs t kept (filter-IsIn p xs t) (rw kept at h)
  | inr left_out ↦ let r = filter-IsIn p xs t (rw left_out at h) in (inr r.0, r.1)
]
  where
    filter_head :
        (p : PrintTask → Bool) (x : PrintTask) (xs : List PrintTask) (t : PrintTask)
        → p x ≡ true
        → (IsIn t (filter p xs) → IsIn t xs × (p t ≡ true))
        → IsIn t (x ∷ filter p xs)
        → IsIn t (x ∷ xs) × (p t ≡ true)
    filter_head p x xs t kept ih (inl same) = (inl same, subst (λ y. p y ≡ true) same kept)
    filter_head p x xs t kept ih (inr later) = let r = ih later in (inr r.0, r.1)

pub IsIn-All :
    (P : PrintTask → Type 0) (xs : List PrintTask) (t : PrintTask) → All P xs → IsIn t xs → P t
IsIn-All P [] t h m = absurd m
IsIn-All P (x ∷ xs) t h (inl same) = subst P same h.0
IsIn-All P (x ∷ xs) t h (inr later) = IsIn-All P xs t h.1 later

pub All-update :
    (P : PrintTask → Type 0) (q : PrintTask → Bool) (f : PrintTask → PrintTask)
    (xs : List PrintTask)
    → ((x : PrintTask) → q x ≡ true → P x → P (f x))
    → All P xs
    → All P (update_where q f xs)
All-update P q f [] k h = tt
All-update P q f (x ∷ xs) k h = elim (Bool-cases (q x)) [
  | inl hit ↦ rw hit (k x hit h.0, All-update P q f xs k h.1)
  | inr miss ↦ rw miss (h.0, All-update P q f xs k h.1)
]

any-update :
    (i : ℕ) (q : PrintTask → Bool) (f : PrintTask → PrintTask) (xs : List PrintTask)
    → ((x : PrintTask) → q x ≡ true → (f x).id ≡ x.id)
    → any (has_id i) (update_where q f xs) ≡ any (has_id i) xs
any-update i q f [] k = refl
any-update i q f (x ∷ xs) k = elim (Bool-cases (q x)) [
  | inl hit ↦ rw (hit, k x hit, any-update i q f xs k)
  | inr miss ↦ rw (miss, any-update i q f xs k)
]

pub Distinct-update :
    (q : PrintTask → Bool) (f : PrintTask → PrintTask) (xs : List PrintTask)
    → ((x : PrintTask) → q x ≡ true → (f x).id ≡ x.id)
    → Distinct xs
    → Distinct (update_where q f xs)
Distinct-update q f [] k h = tt
Distinct-update q f (x ∷ xs) k h = elim (Bool-cases (q x)) [
  | inl hit ↦ rw (hit, k x hit, any-update x.id q f xs k) (h.0, Distinct-update q f xs k h.1)
  | inr miss ↦ rw (miss, any-update x.id q f xs k) (h.0, Distinct-update q f xs k h.1)
]

update_miss :
    (q : PrintTask → Bool) (f : PrintTask → PrintTask) (xs : List PrintTask)
    → any q xs ≡ false
    → update_where q f xs ≡ xs
update_miss q f [] h = refl
update_miss q f (x ∷ xs) h = elim (Bool-cases (q x)) [
  | inl hit ↦ cc (rw hit at h)
  | inr miss ↦ rw miss (ap (◌∷◌ x) (update_miss q f xs (rw miss at h)))
]

pub any-IsIn :
    (p : PrintTask → Bool) (xs : List PrintTask) (t : PrintTask)
    → any p xs ≡ false
    → IsIn t xs
    → p t ≡ false
any-IsIn p [] t h m = absurd m
any-IsIn p (x ∷ xs) t h m = elim (Bool-cases (p x)) [
  | inl hit ↦ cc (rw hit at h)
  | inr miss ↦ any_tail p x xs t miss (any-IsIn p xs t (rw miss at h)) m
]
  where
    any_tail :
        (p : PrintTask → Bool) (x : PrintTask) (xs : List PrintTask) (t : PrintTask)
        → p x ≡ false
        → (IsIn t xs → p t ≡ false)
        → IsIn t (x ∷ xs)
        → p t ≡ false
    any_tail p x xs t miss ih (inl same) = subst (λ y. p y ≡ false) same miss
    any_tail p x xs t miss ih (inr later) = ih later

-- A sum over the rows.
unfoldable pub sum_of : (PrintTask → ℤ) → List PrintTask → ℤ
sum_of f [] = pos 0
sum_of f (t ∷ ts) = f t +ℤ sum_of f ts

exchange : (a b s s' c : ℤ) → s' +ℤ a ≡ s +ℤ b → (c +ℤ s') +ℤ a ≡ (c +ℤ s) +ℤ b
exchange a b s s' c h = let u = ap pos_part h in let v = ap neg_part h in omega int_laws

rotate : (a b s : ℤ) → (b +ℤ s) +ℤ a ≡ (a +ℤ s) +ℤ b
rotate a b s = omega int_laws

flip : (a b : ℕ) → (a == b) ≡ false → (b == a) ≡ false
flip a b h = ground arith

pub sum-save :
    (f : PrintTask → ℤ) (xs : List PrintTask) (t t' : PrintTask)
    → Distinct xs
    → IsIn t xs
    → sum_of f (update_where (has_id t.id) (λ _. t') xs) +ℤ f t ≡ sum_of f xs +ℤ f t'
unfolding sum_of
sum-save f [] t t' d m = absurd m
sum-save f (x ∷ xs) t t' d (inl same) =
    let alone = subst (λ y. any (has_id y.id) xs ≡ false) same d.0 in
    let hit = subst (λ y. (y.id == t.id) ≡ true) (sym same) (==_self t.id) in
    rw (hit, update_miss (has_id t.id) (λ _. t') xs alone, ap f same)
      (rotate (f t) (f t') (sum_of f xs))
sum-save f (x ∷ xs) t t' d (inr later) =
    rw (flip t.id x.id (any-IsIn (has_id x.id) xs t d.0 later)) (
      exchange (f t) (f t') (sum_of f xs) (sum_of f (update_where (has_id t.id) (λ _. t') xs)) (f x)
        (sum-save f xs t t' d.1 later))

pub sum-update_same :
    (f : PrintTask → ℤ) (q : PrintTask → Bool) (g : PrintTask → PrintTask) (xs : List PrintTask)
    → All (λ x. q x ≡ true → f (g x) ≡ f x) xs
    → sum_of f (update_where q g xs) ≡ sum_of f xs
unfolding sum_of
sum-update_same f q g [] k = refl
sum-update_same f q g (x ∷ xs) k = elim (Bool-cases (q x)) [
  | inl hit ↦ rw (hit, k.0 hit, sum-update_same f q g xs k.1)
  | inr miss ↦ rw (miss, sum-update_same f q g xs k.1)
]

+ℤ_assoc : (a b c : ℤ) → a +ℤ (b +ℤ c) ≡ (a +ℤ b) +ℤ c
+ℤ_assoc a b c = omega int_laws

pub sum-append :
    (f : PrintTask → ℤ) (xs : List PrintTask) (t : PrintTask)
    → sum_of f (xs ++ t ∷ []) ≡ sum_of f xs +ℤ f t
unfolding sum_of
sum-append f [] t = omega int_laws
sum-append f (x ∷ xs) t = rw (sum-append f xs t) (+ℤ_assoc (f x) (sum_of f xs) (f t))

-- The id of a new row is in no row yet.
next_id-above : (xs : List PrintTask) (i : ℕ) → next_id xs ≤ i → any (has_id i) xs ≡ false
unfolding next_id
next_id-above [] i h = refl
next_id-above (x ∷ xs) i h = ground (arith, next_id-above xs i)

any-append :
    (p : PrintTask → Bool) (xs : List PrintTask) (t : PrintTask)
    → p t ≡ false
    → any p (xs ++ t ∷ []) ≡ any p xs
any-append p [] t h = rw h
any-append p (x ∷ xs) t h = rw (any-append p xs t h)

Distinct-append :
    (xs : List PrintTask) (t : PrintTask)
    → any (has_id t.id) xs ≡ false
    → Distinct xs
    → Distinct (xs ++ t ∷ [])
Distinct-append [] t h d = (refl, tt)
Distinct-append (x ∷ xs) t h d = elim (Bool-cases (x.id == t.id)) [
  | inl hit ↦ cc (rw hit at h)
  | inr miss ↦ (
    rw (any-append (has_id x.id) xs t (flip x.id t.id miss)) d.0,
    Distinct-append xs t (rw miss at h) d.1,
  )
]

pub Distinct-next :
    (xs : List PrintTask) (t : PrintTask)
    → t.id ≡ next_id xs
    → Distinct xs
    → Distinct (xs ++ t ∷ [])
Distinct-next xs t h d = Distinct-append xs t (next_id-above xs t.id (omega arith)) d
