-- ===== src/Printing/Queue/Effects.antt =====
-- Every request's effect on the table of print tasks and on the paper.
use printvendo_backend.Prelude.{
  Bool-cases, Option-cases, get_or, filter, find, find-hit, ℤ, pos, ◌+ℤ◌, ◌-ℤ◌, max_ℤ, +ℤ-zero,
  Result, ok, err, Exec, pure, lift, keep_if_ok, continue, ◌>>=◌, ◌>>◌, Run-cases, ℕ, String, ◌≡◌,
  refl, sym, ap, ◌∙◌, inl, inr, Option, none, some, List,
}
use printvendo_backend.Printing.Models.{
  is_terminal, PrintTask, Shop, PaperLedger, TaskOutcome, has_id, reach_out,
}
use printvendo_backend.Printing.Options.Workload.{PrintOptions, Workload, workload}
use printvendo_backend.Printing.Tasks.{
  in_hand, is_failed, is_negative, is_zero, task_moved, start_printing, report_printed,
  report_failed, confirm_printed, report_blocked,
}
use printvendo_backend.Printing.Claims.{
  claimable, first_of_queue, named, held_as, new_task, claim_next_task, renew_held_lease,
  fail_expired, task_for_kiosk, insert_task, enqueue_task,
}
use printvendo_backend.Printing.Queue.{
  Event, enqueues, claims, starts, prints, fails, blocks, renews, sweeps, confirms, next_id,
  confirm_found, apply,
}
use printvendo_backend.Printing.Queue.Table.{IsIn, find-IsIn, filter-IsIn}
use printvendo_backend.Printing.Queue.Steps.{claim, start, print, fail, block, renew, confirm}
use printvendo_backend.Printing.Queue.Changes.{
  Effect, same, one, added, swept, is_failed_state, is_zero_eq, is_queued_state, held_in_hand,
  first_of_queue-IsIn,
}

module _ {L : Type 0} (ledger : PaperLedger L) (outcome : TaskOutcome L) (taken : L → ℤ)
    -- The ledger that accepts a deduction takes the sheets that were used, or else the prediction.
    (consumes : (k : ℕ) (p : ℤ) (a : Option ℤ) (r : String) (l l' : L)
      → ledger.consume k p a r l ≡ (ok tt, l')
      → taken l' ≡ taken l +ℤ get_or a p)
    -- What an order makes of a task's progress takes no paper.
    (moves : (t : PrintTask) (ts : List PrintTask) (l l' : L)
      → outcome.task_moved t ts l ≡ (ok tt, l')
      → taken l' ≡ taken l) where
  -- A request's effect, with the paper that it took.
  abbrev Does : Shop L → Shop L → Type 0
  Does s s' =
      (cost : ℤ) × Effect s.tasks s'.tasks cost × (taken s'.outside ≡ taken s.outside +ℤ cost)

  nothing : (s : Shop L) → Does s s
  nothing s = (pos 0, same refl refl, sym (+ℤ-zero (taken s.outside)))

  -- The end of every report: the row is written, the order hears of it.
  moved_end :
      (s : Shop L) (ts : List PrintTask) (l : L) (t' : PrintTask) (cost : ℤ)
      → Effect s.tasks ts cost
      → taken l ≡ taken s.outside +ℤ cost
      → Does s
          (keep_if_ok s (
            continue
              (reach_out (record { tasks = ts; outside = l }) (outcome.task_moved t' ts l))
              (λ _. pure t'))).1
  moved_end s ts l t' cost e paid = elim (Run-cases (outcome.task_moved t' ts l)) [
    | inl (tt, l', r) ↦ rw r (cost, e, moves t' ts l l' r ∙ paid)
    | inr (x, l', r) ↦ rw r (nothing s)
  ]

  consumed_end :
      (s : Shop L) (ts : List PrintTask) (t' : PrintTask) (k : ℕ) (p : ℤ) (a : Option ℤ)
      (r : String)
      → Effect s.tasks ts (get_or a p)
      → Does s
          (keep_if_ok s (
            continue
              (reach_out
                (record { tasks = ts; outside = s.outside })
                (ledger.consume k p a r s.outside))
              (λ _. task_moved ledger outcome t' >> pure t'))).1
  unfolding task_moved
  consumed_end s ts t' k p a r e = elim (Run-cases (ledger.consume k p a r s.outside)) [
    | inl (tt, l', c) ↦ rw c (moved_end s ts l' t' (get_or a p) e (consumes k p a r s.outside l' c))
    | inr (x, l', c) ↦ rw c (nothing s)
  ]

  start-Does :
      (t : PrintTask) (now : ℕ) (s : Shop L)
      → IsIn t s.tasks
      → Does s (keep_if_ok s (start_printing ledger outcome t now s)).1
  unfolding start_printing
  start-Does t now s m = elim (Bool-cases (is_terminal t.state)) [
    | inl over ↦ rw over (nothing s)
    | inr open_task ↦ elim (Bool-cases (in_hand t.state)) [
      | inl held ↦
          rw (open_task, held)
            (moved_end s _ s.outside _ (pos 0) (one t _ m (start now held refl refl) refl)
              (sym (+ℤ-zero (taken s.outside))))
      | inr other ↦ rw (open_task, other) (nothing s)
    ]
  ]

  print-Does :
      (t : PrintTask) (n : Option ℤ) (now : ℕ) (s : Shop L)
      → IsIn t s.tasks
      → Does s (keep_if_ok s (report_printed ledger outcome t n now s)).1
  unfolding report_printed
  print-Does t n now s m = elim (Bool-cases (is_terminal t.state)) [
    | inl over ↦ rw over (nothing s)
    | inr open_task ↦ elim (Bool-cases (in_hand t.state)) [
      | inl held ↦ elim (Bool-cases (is_negative n)) [
        | inl less ↦ rw (open_task, held, less) (nothing s)
        | inr fine ↦
            rw (open_task, held, fine)
              (consumed_end s _ _ t.kiosk_id t.predicted_sheets n t.public_id
                (one t _ m (print n now held fine refl refl) refl))
      ]
      | inr other ↦ rw (open_task, other) (nothing s)
    ]
  ]

  fail-Does :
      (t : PrintTask) (n : Option ℤ) (c msg : Option String) (now : ℕ) (s : Shop L)
      → IsIn t s.tasks
      → Does s (keep_if_ok s (report_failed ledger outcome t n c msg now s)).1
  unfolding report_failed
  fail-Does t n c msg now s m = elim (Bool-cases (is_terminal t.state)) [
    | inl over ↦ rw over (nothing s)
    | inr open_task ↦ elim (Bool-cases (in_hand t.state)) [
      | inl held ↦ elim (Bool-cases (is_negative n)) [
        | inl less ↦ rw (open_task, held, less) (nothing s)
        | inr fine ↦
            rw (open_task, held, fine)
              (consumed_end s _ _ t.kiosk_id t.predicted_sheets (some (get_or n (pos 0)))
                t.public_id (one t _ m (fail n c msg now held fine refl refl) refl))
      ]
      | inr other ↦ rw (open_task, other) (nothing s)
    ]
  ]

  block-Does :
      (t : PrintTask) (c : String) (msg : Option String) (now : ℕ) (s : Shop L)
      → IsIn t s.tasks
      → Does s (keep_if_ok s (report_blocked t c msg now s)).1
  unfolding report_blocked
  block-Does t c msg now s m = elim (Bool-cases (is_terminal t.state)) [
    | inl over ↦ rw over (nothing s)
    | inr open_task ↦ elim (Bool-cases (in_hand t.state)) [
      | inl held ↦
          rw (open_task, held)
            (pos 0, one t _ m (block c msg held refl refl) refl, sym (+ℤ-zero (taken s.outside)))
      | inr other ↦ rw (open_task, other) (nothing s)
    ]
  ]

  confirm-Does :
      (t : PrintTask) (now : ℕ) (s : Shop L)
      → IsIn t s.tasks
      → Does s (keep_if_ok s (confirm_printed ledger outcome t now s)).1
  unfolding confirm_printed
  confirm-Does t now s m = elim (Bool-cases (is_failed t.state)) [
    | inr other ↦ rw other (nothing s)
    | inl lost ↦
        let rest = max_ℤ (pos 0) (t.predicted_sheets -ℤ get_or t.actual_sheets (pos 0)) in
        let step = confirm now (is_failed_state t.state lost) refl refl in
        elim (Bool-cases (is_zero rest)) [
          | inl none_left ↦
              rw (lost, none_left)
                (moved_end s _ s.outside _ rest (one t _ m step refl) (
                  sym (
                    ap (λ c. taken s.outside +ℤ c) (is_zero_eq rest none_left)
                    ∙ +ℤ-zero (taken s.outside))))
          | inr some_left ↦
              rw (lost, some_left)
                (consumed_end s _ _ t.kiosk_id rest (some rest) _ (one t _ m step refl))
        ]
  ]

  claim-Does : (k now : ℕ) (s : Shop L) → Does s (keep_if_ok s (claim_next_task k now s)).1
  unfolding claim_next_task
  claim-Does k now s = elim (Option-cases (first_of_queue (filter (claimable k) s.tasks))) [
    | inl idle ↦ rw idle (nothing s)
    | inr (t, e) ↦
        let found =
          filter-IsIn (claimable k) s.tasks t
            (first_of_queue-IsIn (filter (claimable k) s.tasks) t e) in
        rw e (
          pos 0,
          one t _ found.0 (claim now (is_queued_state k t found.1) refl refl) refl,
          sym (+ℤ-zero (taken s.outside)),
        )
  ]

  renew-Does :
      (k : ℕ) (p : String) (now : ℕ) (s : Shop L)
      → Does s (keep_if_ok s (renew_held_lease k p now s)).1
  unfolding renew_held_lease
  renew-Does k p now s = elim (Option-cases (find (held_as k p) s.tasks)) [
    | inl unknown ↦ rw unknown (nothing s)
    | inr (t, e) ↦
        let held = held_in_hand k p t (find-hit (held_as k p) s.tasks t e) in
        rw e (
          pos 0,
          one t _ (find-IsIn (held_as k p) s.tasks t e) (renew now held refl refl) refl,
          sym (+ℤ-zero (taken s.outside)),
        )
  ]

  sweep-Does : (now : ℕ) (s : Shop L) → Does s (keep_if_ok s (fail_expired now s)).1
  unfolding fail_expired
  sweep-Does now s = (pos 0, swept now refl refl, sym (+ℤ-zero (taken s.outside)))

  enqueue-Does :
      (p : String) (c d k : ℕ) (o : PrintOptions) (n i : ℕ) (s : Shop L)
      → Does s (keep_if_ok s (enqueue_task (next_id s.tasks) p c d k o n i s)).1
  unfolding enqueue_task
  enqueue-Does p c d k o n i s = enqueued (workload o n)
    where
      enqueued :
          (w : Result Workload)
          → Does s
              (keep_if_ok s (
                continue
                  (lift w s)
                  (λ load. insert_task (new_task (next_id s.tasks) p c d k o i load)))).1
      enqueued (err e) = nothing s
      enqueued (ok load) =
          (pos 0, added _ refl refl refl refl refl refl, sym (+ℤ-zero (taken s.outside)))

  confirm_found-Does :
      (found : Option PrintTask) (now : ℕ) (s : Shop L)
      → ((t : PrintTask) → found ≡ some t → IsIn t s.tasks)
      → Does s (keep_if_ok s (confirm_found ledger outcome found now s)).1
  unfolding confirm_found
  confirm_found-Does none now s m = nothing s
  confirm_found-Does (some t) now s m = confirm-Does t now s (m t refl)

  -- A device's report on the task that it names.
  named-Does :
      (k : ℕ) (p : String) (act : PrintTask → Exec (Shop L) PrintTask) (s : Shop L)
      → ((t : PrintTask) → IsIn t s.tasks → Does s (keep_if_ok s (act t s)).1)
      → Does s (keep_if_ok s ((task_for_kiosk k p >>= act) s)).1
  unfolding task_for_kiosk
  named-Does k p act s does = elim (Option-cases (find (named k p) s.tasks)) [
    | inl unknown ↦ rw unknown (nothing s)
    | inr (t, e) ↦ rw e (does t (find-IsIn (named k p) s.tasks t e))
  ]

  -- Every request changes nothing, or does one step of one row, or adds a queued row, or sweeps;
  -- and it takes just the sheets of that step.
  pub apply-Does : (e : Event) (s : Shop L) → Does s (apply ledger outcome e s)
  unfolding apply
  apply-Does (enqueues p c d k o n i) s = enqueue-Does p c d k o n i s
  apply-Does (claims k now) s = claim-Does k now s
  apply-Does (starts k p now) s = named-Does k p _ s (λ t. start-Does t now s)
  apply-Does (prints k p n now) s = named-Does k p _ s (λ t. print-Does t n now s)
  apply-Does (fails k p n c m now) s = named-Does k p _ s (λ t. fail-Does t n c m now s)
  apply-Does (blocks k p c m now) s = named-Does k p _ s (λ t. block-Does t c m now s)
  apply-Does (renews k p now) s = renew-Does k p now s
  apply-Does (sweeps now) s = sweep-Does now s
  apply-Does (confirms i now) s =
      confirm_found-Does (find (has_id i) s.tasks) now s (find-IsIn (has_id i) s.tasks)
