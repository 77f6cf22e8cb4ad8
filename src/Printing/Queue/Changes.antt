-- ===== src/Printing/Queue/Changes.antt =====
-- What one request may do to the table of print tasks.
use printvendo_backend.Prelude.{
  Bool-cases, Option-cases, update_where, ℤ, pos, ℕ, String, ◌≡◌, subst, inl, inr, true, none, some,
  List, [], ◌∷◌, ◌++◌, arith,
}
use printvendo_backend.Printing.Models.{TaskState, queued, failed, PrintTask, has_id}
use printvendo_backend.Printing.Tasks.{in_hand, is_failed, is_zero}
use printvendo_backend.Printing.Claims.{
  claimable, no_later, first_of_queue, is_stale, expired, held_as,
}
use printvendo_backend.Printing.Queue.{next_id}
use printvendo_backend.Printing.Queue.Table.{IsIn}
use printvendo_backend.Printing.Queue.Steps.{Step}

-- What a request has done to the rows: nothing, one step of one row, a new row that is queued, or
-- the sweep of all that are stale; and the sheets that it took.
pub data Effect (ts : List PrintTask) (ts' : List PrintTask) (cost : ℤ) : Type 0 where
  same : ts' ≡ ts → cost ≡ pos 0 → Effect ts ts' cost
  one :
      (t t' : PrintTask)
      → IsIn t ts
      → Step t t' cost
      → ts' ≡ update_where (has_id t.id) (λ _. t') ts
      → Effect ts ts' cost
  added :
      (t : PrintTask)
      → t.id ≡ next_id ts
      → t.state ≡ queued
      → t.attempts ≡ 0
      → t.actual_sheets ≡ none
      → ts' ≡ ts ++ t ∷ []
      → cost ≡ pos 0
      → Effect ts ts' cost
  swept :
      (now : ℕ)
      → ts' ≡ update_where (is_stale now) (expired now) ts
      → cost ≡ pos 0
      → Effect ts ts' cost

pub is_failed_state : (st : TaskState) → is_failed st ≡ true → st ≡ failed
is_failed_state st h = ground arith

pub is_zero_eq : (n : ℤ) → is_zero n ≡ true → n ≡ pos 0
is_zero_eq n h = ground arith

pub is_queued_state : (k : ℕ) (t : PrintTask) → claimable k t ≡ true → t.state ≡ queued
is_queued_state k t h = ground arith

pub held_in_hand :
    (k : ℕ) (p : String) (t : PrintTask) → held_as k p t ≡ true → in_hand t.state ≡ true
held_in_hand k p t h = ground arith

pub first_of_queue-IsIn :
    (ts : List PrintTask) (t : PrintTask) → first_of_queue ts ≡ some t → IsIn t ts
unfolding first_of_queue
first_of_queue-IsIn [] t h = cc
first_of_queue-IsIn (x ∷ xs) t h = elim (Option-cases (first_of_queue xs)) [
  | inl alone ↦ let here : some x ≡ some t = rw alone at h in inl (cc)
  | inr (y, e) ↦ elim (Bool-cases (no_later x y)) [
    | inl first ↦ let here : some x ≡ some t = rw (e, first) at h in inl (cc)
    | inr second ↦
        let here : some y ≡ some t = rw (e, second) at h in
        let other : y ≡ t = cc in inr (subst (λ u. IsIn u xs) other (first_of_queue-IsIn xs y e))
  ]
]
