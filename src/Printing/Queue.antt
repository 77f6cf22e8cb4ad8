-- ===== src/Printing/Queue.antt =====
-- The print tasks of all kiosks as one table, and the requests that change it, each in a transaction
-- of its own: what app/api/device and the sweeps of app/jobs call in app/modules/printing.
pub mod Table
pub mod Steps
pub mod Changes
pub mod Effects
pub mod Accounts
pub mod Settled
mod Examples
use printvendo_backend.Prelude.{
  find, ℤ, no_such_task, not_found, Exec, raise, transaction, ◌>>=◌, ℕ, ◌+◌, max, String, Option,
  none, some, List, [], ◌∷◌,
}
use printvendo_backend.Printing.Models.{PrintTask, Shop, PaperLedger, TaskOutcome, has_id}
use printvendo_backend.Printing.Tasks.{
  start_printing, report_printed, report_failed, confirm_printed, report_blocked,
}
use printvendo_backend.Printing.Claims.{
  claim_next_task, renew_held_lease, fail_expired, task_for_kiosk, enqueue_task,
}
use printvendo_backend.Printing.Options.Workload.{PrintOptions}

-- A kiosk and a task's public id come first in what a device says, then what it reports, and last
-- the time. An operator names a row.
pub data Event : Type 0 where
  enqueues : String → ℕ → ℕ → ℕ → PrintOptions → ℕ → ℕ → Event
  claims : ℕ → ℕ → Event
  starts : ℕ → String → ℕ → Event
  prints : ℕ → String → Option ℤ → ℕ → Event
  fails : ℕ → String → Option ℤ → Option String → Option String → ℕ → Event
  blocks : ℕ → String → String → Option String → ℕ → Event
  renews : ℕ → String → ℕ → Event
  sweeps : ℕ → Event
  confirms : ℕ → ℕ → Event

-- An id above every id in use, as a sequence gives.
unfoldable pub next_id : List PrintTask → ℕ
next_id [] = 1
next_id (t ∷ ts) = max (t.id + 1) (next_id ts)

module _ {L : Type 0} (ledger : PaperLedger L) (outcome : TaskOutcome L) where
  unfoldable pub confirm_found : Option PrintTask → ℕ → Exec (Shop L) PrintTask
  unfolding confirm_printed
  confirm_found none now = raise (not_found no_such_task)
  confirm_found (some t) now = confirm_printed ledger outcome t now

  unfoldable pub apply : Event → Shop L → Shop L
  unfolding enqueue_task claim_next_task task_for_kiosk start_printing report_printed report_failed
      report_blocked renew_held_lease fail_expired confirm_found
  apply (enqueues p c d k o n i) s =
      (transaction (enqueue_task (next_id s.tasks) p c d k o n i) s).1
  apply (claims k now) s = (transaction (claim_next_task k now) s).1
  apply (starts k p now) s =
      (transaction (task_for_kiosk k p >>= λ t. start_printing ledger outcome t now) s).1
  apply (prints k p n now) s =
      (transaction (task_for_kiosk k p >>= λ t. report_printed ledger outcome t n now) s).1
  apply (fails k p n c m now) s =
      (transaction (task_for_kiosk k p >>= λ t. report_failed ledger outcome t n c m now) s).1
  apply (blocks k p c m now) s =
      (transaction (task_for_kiosk k p >>= λ t. report_blocked t c m now) s).1
  apply (renews k p now) s = (transaction (renew_held_lease k p now) s).1
  apply (sweeps now) s = (transaction (fail_expired now) s).1
  apply (confirms i now) s = (transaction (λ u. confirm_found (find (has_id i) u.tasks) now u) s).1

  unfoldable pub run : List Event → Shop L → Shop L
  run [] s = s
  run (e ∷ es) s = run es (apply e s)
