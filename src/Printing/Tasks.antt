-- ===== src/Printing/Tasks.antt =====
-- app/modules/printing/tasks.py: what a device reports back about the work it was given.
use printvendo_backend.Prelude.{
  if◌then◌else◌, get_or, ℤ, pos, ◌-ℤ◌, ltb_ℤ, leb_ℤ, max_ℤ, already_finished, not_in_hand,
  not_failed, negative_sheets, bad_request, conflict, ok, err, Exec, pure, ◌>>◌, raise_if, ℕ, ◌+◌,
  String, str_append, Bool, true, false, not, ◌&&◌, Option, none, some,
}
use printvendo_backend.Printing.Models.{
  TaskState, sent_to_device, printing, printed, failed, blocked, is_terminal, PrintTask, Shop,
  PaperLedger, TaskOutcome, save, reach_out,
}

-- LEASE, in seconds
abbrev pub lease : ℕ
lease = 900

-- IN_HAND
abbrev pub in_hand : TaskState → Bool
in_hand sent_to_device = true
in_hand printing = true
in_hand _ = false

abbrev pub is_failed : TaskState → Bool
is_failed failed = true
is_failed _ = false

abbrev pub is_negative : Option ℤ → Bool
is_negative none = false
is_negative (some sheets) = ltb_ℤ sheets (pos 0)

-- `a or b` for a nullable moment
abbrev pub or_else : Option ℕ → ℕ → ℕ
or_else none now = now
or_else (some t) now = t

abbrev pub is_zero : ℤ → Bool
is_zero n = leb_ℤ n (pos 0) && leb_ℤ (pos 0) n

module _ {L : Type 0} where
  unfoldable pub require_in_hand : PrintTask → Exec (Shop L) (Unit {0})
  require_in_hand task s =
      if is_terminal task.state
      then (err (conflict already_finished), s)
      else if in_hand task.state
      then (ok tt, s)
      else (err (conflict not_in_hand), s)

  unfoldable pub reject_negative : Option ℤ → Exec (Shop L) (Unit {0})
  reject_negative sheets = raise_if (is_negative sheets) (bad_request negative_sheets)

module _ {L : Type 0} (ledger : PaperLedger L) (outcome : TaskOutcome L) where
  unfoldable pub consume : PrintTask → ℤ → Option ℤ → String → Exec (Shop L) (Unit {0})
  consume task predicted actual reference s =
      reach_out s (ledger.consume task.kiosk_id predicted actual reference s.outside)

  unfoldable pub task_moved : PrintTask → Exec (Shop L) (Unit {0})
  task_moved task s = reach_out s (outcome.task_moved task s.tasks s.outside)

  unfoldable pub start_printing : PrintTask → ℕ → Exec (Shop L) PrintTask
  unfolding require_in_hand task_moved
  start_printing task now = do
    require_in_hand task
    let task' = record task {
      state = printing;
      started_at = some (or_else task.started_at now);
      lease_expires_at = some (now + lease);
    }
    save task'
    task_moved task'
    pure task'

  unfoldable pub report_printed : PrintTask → Option ℤ → ℕ → Exec (Shop L) PrintTask
  unfolding require_in_hand reject_negative consume task_moved
  report_printed task sheets_used now = do
    require_in_hand task
    reject_negative sheets_used
    let task' = record task {
      state = printed;
      actual_sheets = sheets_used;
      finished_at = some now;
      lease_expires_at = none;
    }
    save task'
    consume task' task.predicted_sheets sheets_used task.public_id
    task_moved task'
    pure task'

  unfoldable pub report_failed :
      PrintTask → Option ℤ → Option String → Option String → ℕ → Exec (Shop L) PrintTask
  unfolding require_in_hand reject_negative consume task_moved
  report_failed task sheets_used error_code error_message now = do
    require_in_hand task
    reject_negative sheets_used
    let task' = record task {
      state = failed;
      actual_sheets = sheets_used;
      error_code = error_code;
      error_message = error_message;
      finished_at = some now;
      lease_expires_at = none;
    }
    save task'
    consume task' task.predicted_sheets (some (get_or sheets_used (pos 0))) task.public_id
    task_moved task'
    pure task'

  unfoldable pub confirm_printed : PrintTask → ℕ → Exec (Shop L) PrintTask
  unfolding consume task_moved
  confirm_printed task now = do
    raise_if (not (is_failed task.state)) (conflict not_failed)
    let already = get_or task.actual_sheets (pos 0)
    let rest = max_ℤ (pos 0) (task.predicted_sheets -ℤ already)
    let task' = record task {
      state = printed;
      actual_sheets = some (max_ℤ already task.predicted_sheets);
      error_code = none;
      error_message = none;
      finished_at = some now;
      lease_expires_at = none;
    }
    save task'
    if is_zero rest
        then pure tt
        else consume task' rest (some rest)
            (str_append task.public_id " (confirmed by an operator)")
    task_moved task'
    pure task'

module _ {L : Type 0} where
  unfoldable pub report_blocked : PrintTask → String → Option String → ℕ → Exec (Shop L) PrintTask
  unfolding require_in_hand
  report_blocked task reason message now = do
    require_in_hand task
    let task' = record task {
      state = blocked;
      error_code = some reason;
      error_message = message;
      claimed_at = none;
      lease_expires_at = none;
    }
    save task'
    pure task'
