-- ===== src/Printing/Models.antt =====
-- app/modules/printing/models.py, and the seams of app/modules/printing/tasks.py.
-- A moment is a number of seconds. Sheets are Python ints.
use printvendo_backend.Prelude.{
  ◌==◌, update_where, ℤ, Result, ok, Exec, ℕ, String, Bool, true, false, Option, List,
}

pub data TaskState : Type 0 where
  queued sent_to_device printing printed failed blocked cancelled : TaskState

-- TERMINAL_TASK_STATES
abbrev pub is_terminal : TaskState → Bool
is_terminal printed = true
is_terminal failed = true
is_terminal cancelled = true
is_terminal _ = false

pub record PrintTask : Type 0 where
  pub id : ℕ
  pub public_id : String
  pub document_id : ℕ
  pub kiosk_id : ℕ
  pub state : TaskState
  pub position : ℕ
  pub colour : Bool
  pub duplex : Bool
  pub copies : ℕ
  pub page_range : Option (List ℕ)
  pub predicted_sheets : ℤ
  pub actual_sheets : Option ℤ
  pub claimed_at : Option ℕ
  pub lease_expires_at : Option ℕ
  pub attempts : ℕ
  pub started_at : Option ℕ
  pub finished_at : Option ℕ
  pub error_code : Option String
  pub error_message : Option String
  pub created_at : ℕ

-- The database as printing sees it: its own table, and all that the seams reach.
pub record Shop (L : Type 0) : Type 0 where
  pub tasks : List PrintTask
  pub outside : L

-- `PaperLedger`: where a finished print's paper is deducted.
pub record PaperLedger (L : Type 0) : Type 0 where
  pub consume : ℕ → ℤ → Option ℤ → String → Exec L (Unit {0})

-- `TaskOutcome`: what a print's progress means to whoever bought it. It reads the tasks as they stand.
pub record TaskOutcome (L : Type 0) : Type 0 where
  pub task_moved : PrintTask → List PrintTask → Exec L (Unit {0})

-- `NoOutcome`
abbrev pub no_outcome : {L : Type 0} → TaskOutcome L
no_outcome = record { task_moved = λ task tasks l. (ok tt, l) }

abbrev pub has_id : ℕ → PrintTask → Bool
has_id i t = t.id == i

module _ {L : Type 0} where
  -- `db.add(task)`: the row as it now is.
  abbrev pub save : PrintTask → Exec (Shop L) (Unit {0})
  save task s = (ok tt, record s { tasks = update_where (has_id task.id) (λ _. task) s.tasks })

  -- A call through a seam.
  abbrev pub reach_out : Shop L → Result (Unit {0}) × L → Result (Unit {0}) × Shop L
  reach_out s (r, l) = (r, record s { outside = l })
