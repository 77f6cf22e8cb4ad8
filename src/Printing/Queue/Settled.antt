-- ===== src/Printing/Queue/Settled.antt =====
-- Rows whose state no request is meant to move.
use printvendo_backend.Prelude.{
  ◌==◌, ==_iff, ==_self, Bool-cases, get_or, any, update_where, ℤ, ◌+ℤ◌, ok, ℕ, String, ◌≡◌, sym,
  ap, ◌∙◌, subst, inl, inr, Bool, true, false, Option, List, [], ◌∷◌, ◌++◌, arith,
}
use printvendo_backend.Printing.Models.{
  TaskState, printed, blocked, cancelled, PrintTask, Shop, PaperLedger, TaskOutcome, has_id,
}
use printvendo_backend.Printing.Claims.{is_stale, expired}
use printvendo_backend.Printing.Queue.{apply, run, Event}
use printvendo_backend.Printing.Queue.Table.{Distinct, IsIn, any-IsIn}
use printvendo_backend.Printing.Queue.Steps.{
  Step, claim, start, print, fail, block, renew, expire, confirm,
}
use printvendo_backend.Printing.Queue.Changes.{Effect, same, one, added, swept}
use printvendo_backend.Printing.Queue.Effects.{apply-Does}
use printvendo_backend.Printing.Queue.Accounts.{IsTable, Effect-IsTable}

-- The states that nothing leaves.
abbrev pub is_settled : TaskState → Bool
is_settled printed = true
is_settled blocked = true
is_settled cancelled = true
is_settled _ = false

Step-unsettled : {t t' : PrintTask} {c : ℤ} → Step t t' c → is_settled t.state ≡ false
Step-unsettled {t} (claim now q _ _) = ground arith
Step-unsettled {t} (start now q _ _) = ground arith
Step-unsettled {t} (print n now q _ _ _) = ground arith
Step-unsettled {t} (fail n c m now q _ _ _) = ground arith
Step-unsettled {t} (block r m q _ _) = ground arith
Step-unsettled {t} (renew now q _ _) = ground arith
Step-unsettled {t} (expire now q _ _) = ground arith
Step-unsettled {t} (confirm now q _ _) = ground arith

settled-fresh : (now : ℕ) (t : PrintTask) → is_settled t.state ≡ true → is_stale now t ≡ false
settled-fresh now t h = ground arith

IsIn-update_miss :
    (q : PrintTask → Bool) (f : PrintTask → PrintTask) (xs : List PrintTask) (t : PrintTask)
    → q t ≡ false
    → IsIn t xs
    → IsIn t (update_where q f xs)
IsIn-update_miss q f [] t h m = absurd m
IsIn-update_miss q f (x ∷ xs) t h (inl found) =
    rw (subst (λ y. q y ≡ false) (sym found) h) (inl found)
IsIn-update_miss q f (x ∷ xs) t h (inr later) = inr (IsIn-update_miss q f xs t h later)

IsIn-append : (xs : List PrintTask) (u t : PrintTask) → IsIn t xs → IsIn t (xs ++ u ∷ [])
IsIn-append [] u t m = absurd m
IsIn-append (x ∷ xs) u t (inl found) = inl found
IsIn-append (x ∷ xs) u t (inr later) = inr (IsIn-append xs u t later)

tail_differs :
    (x t : PrintTask) (xs : List PrintTask)
    → any (has_id x.id) xs ≡ false
    → IsIn t xs
    → (t.id == x.id) ≡ false
tail_differs x t xs d m = any-IsIn (has_id x.id) xs t d m

-- An id names one row.
IsIn-unique :
    (xs : List PrintTask) (t u : PrintTask)
    → Distinct xs
    → IsIn t xs
    → IsIn u xs
    → t.id ≡ u.id
    → t ≡ u
IsIn-unique [] t u d m n h = absurd m
IsIn-unique (x ∷ xs) t u d (inl p) (inl q) h = sym p ∙ q
IsIn-unique (x ∷ xs) t u d (inl p) (inr q) h =
    let away = tail_differs x u xs d.0 q in
    let here = sym h ∙ sym (ap (λ y. y.id) p) in cc (rw (here, ==_self x.id) at away)
IsIn-unique (x ∷ xs) t u d (inr p) (inl q) h =
    let away = tail_differs x t xs d.0 p in
    let here = h ∙ sym (ap (λ y. y.id) q) in cc (rw (here, ==_self x.id) at away)
IsIn-unique (x ∷ xs) t u d (inr p) (inr q) h = IsIn-unique xs t u d.1 p q h

-- The row that a step writes is another one.
Step-elsewhere :
    {u u' : PrintTask} {c : ℤ} (ts : List PrintTask) (t : PrintTask)
    → Step u u' c
    → IsIn u ts
    → Distinct ts
    → is_settled t.state ≡ true
    → IsIn t ts
    → has_id u.id t ≡ false
Step-elsewhere {u} ts t st n d h m = elim (Bool-cases (has_id u.id t)) [
  | inr other ↦ other
  | inl alike ↦
      let one_row = IsIn-unique ts t u d m n ((==_iff t.id u.id).0 alike) in
      cc (sym h ∙ ap (λ y. is_settled y.state) one_row ∙ Step-unsettled st)
]

Effect-settled :
    {ts ts' : List PrintTask} {c : ℤ} (t : PrintTask)
    → Effect ts ts' c
    → Distinct ts
    → is_settled t.state ≡ true
    → IsIn t ts
    → IsIn t ts'
Effect-settled t (same e _) d h m = subst (IsIn t) (sym e) m
Effect-settled {ts} t (one u u' n st e) d h m =
    subst (IsIn t) (sym e)
      (IsIn-update_miss (has_id u.id) (λ _. u') ts t (Step-elsewhere ts t st n d h m) m)
Effect-settled {ts} t (added u _ _ _ _ e _) d h m = subst (IsIn t) (sym e) (IsIn-append ts u t m)
Effect-settled {ts} t (swept now e _) d h m =
    subst (IsIn t) (sym e)
      (IsIn-update_miss (is_stale now) (expired now) ts t (settled-fresh now t h) m)

module _ {L : Type 0} (ledger : PaperLedger L) (outcome : TaskOutcome L) (taken : L → ℤ)
    (consumes : (k : ℕ) (p : ℤ) (a : Option ℤ) (r : String) (l l' : L)
      → ledger.consume k p a r l ≡ (ok tt, l')
      → taken l' ≡ taken l +ℤ get_or a p)
    (moves : (t : PrintTask) (ts : List PrintTask) (l l' : L)
      → outcome.task_moved t ts l ≡ (ok tt, l')
      → taken l' ≡ taken l) where
  -- A row that is printed, cancelled or blocked stays in the table just as it is, whatever is
  -- requested afterwards, from a table with distinct ids and sound rows, and with a ledger that
  -- takes what it accepts and orders that take no paper. So no request puts a blocked row back in
  -- the queue.
  pub run-settled :
      (es : List Event) (s : Shop L) (t : PrintTask)
      → IsTable s.tasks
      → is_settled t.state ≡ true
      → IsIn t s.tasks
      → IsIn t (run ledger outcome es s).tasks
  unfolding run
  run-settled [] s t h f m = m
  run-settled (e ∷ es) s t h f m =
      let does = apply-Does ledger outcome taken consumes moves e s in
      run-settled es (apply ledger outcome e s) t (Effect-IsTable does.1 h) f
        (Effect-settled t does.1 h.distinct f m)
