-- ===== src/Printing/Queue/Accounts.antt =====
-- After any sequence of requests: what the rows say was printed and the paper that was taken, and
-- how often a task was handed out.
use printvendo_backend.Prelude.{
  ==_iff, get_or, All, All-map, All-append, ℤ, pos, pos_part, neg_part, ◌+ℤ◌, int_laws, +ℤ-zero, ok,
  ℕ, String, ◌≡◌, refl, sym, ap, ◌∙◌, subst, true, Option, none, List, [], ◌∷◌, arith,
}
use printvendo_backend.Printing.Models.{queued, PrintTask, Shop, PaperLedger, TaskOutcome, has_id}
use printvendo_backend.Printing.Claims.{is_stale, expired}
use printvendo_backend.Printing.Queue.{Event, apply, run}
use printvendo_backend.Printing.Queue.Table.{
  Distinct, IsIn-All, All-update, Distinct-update, sum_of, sum-save, sum-update_same, sum-append,
  Distinct-next,
}
use printvendo_backend.Printing.Queue.Steps.{
  Step, claim, start, print, fail, block, renew, expire, confirm, accounted, IsSound, Step-IsSound,
  Step-accounted,
}
use printvendo_backend.Printing.Queue.Changes.{Effect, same, one, added, swept}
use printvendo_backend.Printing.Queue.Effects.{apply-Does}

-- A table with ids of their own, every row sound.
pub record IsTable (ts : List PrintTask) : Type 0 where
  pub distinct : Distinct ts
  pub sound : All IsSound ts

Step-id : {t t' : PrintTask} {c : ℤ} → Step t t' c → t'.id ≡ t.id
Step-id (claim now q e _) = ap (λ x. x.id) e
Step-id (start now q e _) = ap (λ x. x.id) e
Step-id (print n now q _ e _) = ap (λ x. x.id) e
Step-id (fail n c m now q _ e _) = ap (λ x. x.id) e
Step-id (block r m q e _) = ap (λ x. x.id) e
Step-id (renew now q e _) = ap (λ x. x.id) e
Step-id (expire now q e _) = ap (λ x. x.id) e
Step-id (confirm now q e _) = ap (λ x. x.id) e

expired-Step : (now : ℕ) (t : PrintTask) → is_stale now t ≡ true → Step t (expired now t) (pos 0)
expired-Step now t h = expire now h refl refl

new-IsSound :
    (t : PrintTask) → t.state ≡ queued → t.attempts ≡ 0 → t.actual_sheets ≡ none → IsSound t
new-IsSound t q a n = ground arith

pub Effect-IsTable : {ts ts' : List PrintTask} {c : ℤ} → Effect ts ts' c → IsTable ts → IsTable ts'
Effect-IsTable (same e _) h = subst IsTable (sym e) h
Effect-IsTable {ts} (one t t' m st e) h = subst IsTable (sym e) (record {
  distinct =
      Distinct-update (has_id t.id) (λ _. t') ts
        (λ x hit. Step-id st ∙ sym ((==_iff x.id t.id).0 hit)) h.distinct;
  sound =
      All-update IsSound (has_id t.id) (λ _. t') ts
        (λ x _ _. Step-IsSound st (IsIn-All IsSound ts t h.sound m)) h.sound;
})
Effect-IsTable {ts} (added t i q a n e _) h = subst IsTable (sym e) (record {
  distinct = Distinct-next ts t i h.distinct;
  sound = All-append IsSound ts (t ∷ []) h.sound (new-IsSound t q a n, tt);
})
Effect-IsTable {ts} (swept now e _) h = subst IsTable (sym e) (record {
  distinct = Distinct-update (is_stale now) (expired now) ts (λ x _. refl) h.distinct;
  sound =
      All-update IsSound (is_stale now) (expired now) ts
        (λ x hit s. Step-IsSound (expired-Step now x hit) s) h.sound;
})

queued-accounted : (t : PrintTask) → t.state ≡ queued → accounted t ≡ pos 0
queued-accounted t q = ground arith

stale-accounted :
    (now : ℕ) (t : PrintTask)
    → IsSound t
    → is_stale now t ≡ true
    → accounted (expired now t) ≡ accounted t
stale-accounted now t s h = Step-accounted (expired-Step now t h) s ∙ +ℤ-zero (accounted t)

cancel : (s s' a a' c : ℤ) → s' +ℤ a ≡ s +ℤ a' → a' ≡ a +ℤ c → s' ≡ s +ℤ c
cancel s s' a a' c h e =
    let u = ap pos_part h in
    let v = ap neg_part h in let x = ap pos_part e in let y = ap neg_part e in omega int_laws

-- A request takes what it adds to the rows' accounts.
Effect-accounted :
    {ts ts' : List PrintTask} {c : ℤ}
    → Effect ts ts' c
    → IsTable ts
    → sum_of accounted ts' ≡ sum_of accounted ts +ℤ c
Effect-accounted {ts} (same e z) h =
    ap (sum_of accounted) e
    ∙ sym (+ℤ-zero (sum_of accounted ts))
    ∙ ap (λ c. sum_of accounted ts +ℤ c) (sym z)
Effect-accounted {ts} {ts'} {c} (one t t' m st e) h =
    cancel (sum_of accounted ts) (sum_of accounted ts') (accounted t) (accounted t') c
      (ap (λ l. sum_of accounted l +ℤ accounted t) e ∙ sum-save accounted ts t t' h.distinct m)
      (Step-accounted st (IsIn-All IsSound ts t h.sound m))
Effect-accounted {ts} (added t i q a n e z) h =
    ap (sum_of accounted) e
    ∙ sum-append accounted ts t
    ∙ ap (λ c. sum_of accounted ts +ℤ c) (queued-accounted t q ∙ sym z)
Effect-accounted {ts} (swept now e z) h =
    ap (sum_of accounted) e
    ∙ sum-update_same accounted (is_stale now) (expired now) ts (
        All-map IsSound (λ x. is_stale now x ≡ true → accounted (expired now x) ≡ accounted x) ts
          (stale-accounted now) h.sound)
    ∙ sym (+ℤ-zero (sum_of accounted ts))
    ∙ ap (λ c. sum_of accounted ts +ℤ c) (sym z)

link : (l m n a b d c : ℤ) → m ≡ l +ℤ c → b ≡ a +ℤ c → n +ℤ b ≡ m +ℤ d → n +ℤ a ≡ l +ℤ d
link l m n a b d c p q r =
    let p0 = ap pos_part p in
    let p1 = ap neg_part p in
    let q0 = ap pos_part q in
    let q1 = ap neg_part q in let r0 = ap pos_part r in let r1 = ap neg_part r in omega int_laws

module _ {L : Type 0} (ledger : PaperLedger L) (outcome : TaskOutcome L) (taken : L → ℤ)
    (consumes : (k : ℕ) (p : ℤ) (a : Option ℤ) (r : String) (l l' : L)
      → ledger.consume k p a r l ≡ (ok tt, l')
      → taken l' ≡ taken l +ℤ get_or a p)
    (moves : (t : PrintTask) (ts : List PrintTask) (l l' : L)
      → outcome.task_moved t ts l ≡ (ok tt, l')
      → taken l' ≡ taken l) where
  -- However devices report, retry and fall silent, in any order and interleaving, from a table
  -- with distinct ids and sound rows, and with a ledger that takes what it accepts and orders
  -- that take no paper: the ids stay distinct, no task is handed to a device more than once, a
  -- task that waits in the queue was never handed out, and a task that is not finished has no
  -- sheets reported.
  pub run-IsTable :
      (es : List Event) (s : Shop L) → IsTable s.tasks → IsTable (run ledger outcome es s).tasks
  unfolding run
  run-IsTable [] s h = h
  run-IsTable (e ∷ es) s h =
      let does = apply-Does ledger outcome taken consumes moves e s in
      run-IsTable es (apply ledger outcome e s) (Effect-IsTable does.1 h)

  -- Paper is taken once for what a print used, given a ledger that takes what it accepts and
  -- orders that take none: after any requests, from a table with distinct ids and sound rows, the
  -- sheets taken from the ledger since the start are the change of what the rows account for. A
  -- printed row accounts for what the device reported, or else for the prediction; a failed row
  -- for what was reported, or else nothing; and every other row for nothing.
  pub run-accounted :
      (es : List Event) (s : Shop L)
      → IsTable s.tasks
      → let s' = run ledger outcome es s in
        taken s'.outside +ℤ sum_of accounted s.tasks ≡ taken s.outside +ℤ sum_of accounted s'.tasks
  unfolding run
  run-accounted [] s h = refl
  run-accounted (e ∷ es) s h =
      let does = apply-Does ledger outcome taken consumes moves e s in
      let u = apply ledger outcome e s in
      link (taken s.outside) (taken u.outside) _ (sum_of accounted s.tasks)
        (sum_of accounted u.tasks) _ does.0 does.2 (Effect-accounted does.1 h)
        (run-accounted es u (Effect-IsTable does.1 h))
