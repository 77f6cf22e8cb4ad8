-- ===== src/Orders/Progress/Derived.antt =====
-- What the state of an order says of its prints.
use printvendo_backend.Prelude.{
  Bool-cases, length, any, all, All, ◌<◌, ◌≡◌, refl, ◌⊎◌, inl, inr, Bool, true, false, not, List,
  [], ◌∷◌, arith,
}
use printvendo_backend.Printing.Models.{PrintTask}
use printvendo_backend.Orders.Models.{OrderState, dispatched, completed, partially_failed, Order}
use printvendo_backend.Orders.Progress.{
  prints_of, is_printed, is_over, state_of_prints, derive_from_prints, derived,
}

all_of : (p : PrintTask → Bool) (ts : List PrintTask) → all p ts ≡ true → All (λ t. p t ≡ true) ts
all_of p [] h = tt
all_of p (t ∷ ts) h = elim (Bool-cases (p t)) [
  | inl hit ↦ (hit, all_of p ts (rw hit at h))
  | inr miss ↦ cc (rw miss at h)
]

some_not :
    (p : PrintTask → Bool) (ts : List PrintTask) → all p ts ≡ false → any (λ t. not (p t)) ts ≡ true
some_not p [] h = cc
some_not p (t ∷ ts) h = elim (Bool-cases (p t)) [
  | inl hit ↦ rw hit (some_not p ts (rw hit at h))
  | inr miss ↦ rw miss refl
]

-- What each state that is derived means.
abbrev pub Means : List PrintTask → OrderState → Type 0
Means ts dispatched = any (λ t. not (is_over t)) ts ≡ true
Means ts completed = All (λ t. is_printed t ≡ true) ts
Means ts partially_failed =
    All (λ t. is_over t ≡ true) ts × (any (λ t. not (is_printed t)) ts ≡ true)
Means ts _ = ⊥

prints-Means : (ts : List PrintTask) → Means ts (state_of_prints ts)
unfolding state_of_prints
prints-Means ts = elim (Bool-cases (all is_over ts)) [
  | inr waiting ↦ rw waiting (some_not is_over ts waiting)
  | inl over ↦ elim (Bool-cases (all is_printed ts)) [
    | inl printed_all ↦ rw (over, printed_all) (all_of is_printed ts printed_all)
    | inr lost ↦ rw (over, lost) (all_of is_over ts over, some_not is_printed ts lost)
  ]
]

-- An order with no prints keeps its state. One with prints becomes DISPATCHED when a print of it has
-- not ended, COMPLETED when every print of it came out, and PARTIALLY_FAILED when all have ended and
-- some did not come out. Nothing else of the order changes.
pub derive_from_prints-Means :
    (o : Order) (tasks : List PrintTask)
    → let o' = derive_from_prints o tasks in
      ((prints_of o tasks ≡ []) × (o' ≡ o))
      ⊎ ((0 < length (prints_of o tasks))
          × Means (prints_of o tasks) o'.state
          × (o' ≡ record o { state = o'.state }))
unfolding derive_from_prints
derive_from_prints-Means o tasks = by_prints (prints_of o tasks)
  where
    by_prints :
        (ts : List PrintTask)
        → ((ts ≡ []) × (derived o ts ≡ o))
          ⊎ ((0 < length ts)
              × Means ts (derived o ts).state
              × (derived o ts ≡ record o { state = (derived o ts).state }))
    by_prints [] = inl (refl, refl)
    by_prints (t ∷ ts) = inr (omega arith, prints-Means (t ∷ ts), refl)
