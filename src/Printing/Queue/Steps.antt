-- ===== src/Printing/Queue/Steps.antt =====
-- What one request may do to one task: the step relation of the print queue, with the sheets taken.
use printvendo_backend.Prelude.{
  get_or, ℤ, pos, ◌+ℤ◌, ◌-ℤ◌, max_ℤ, zero-+ℤ, max_ℤ_sum, ℕ, ◌+◌, ◌≤◌, String, ◌≡◌, ap, ◌∙◌, true,
  false, Option, none, some, arith,
}
use printvendo_backend.Printing.Models.{
  queued, printing, printed, failed, blocked, is_terminal, PrintTask,
}
use printvendo_backend.Printing.Tasks.{lease, in_hand, is_negative, or_else}
use printvendo_backend.Printing.Claims.{claimed_by, is_stale, expired}

-- From a task to a task, and the sheets that the step takes from the tray.
pub data Step (t : PrintTask) (t' : PrintTask) (cost : ℤ) : Type 0 where
  claim : (now : ℕ) → t.state ≡ queued → t' ≡ claimed_by now t → cost ≡ pos 0 → Step t t' cost
  start :
      (now : ℕ)
      → in_hand t.state ≡ true
      → t' ≡ record t {
        state = printing;
        started_at = some (or_else t.started_at now);
        lease_expires_at = some (now + lease);
      }
      → cost ≡ pos 0
      → Step t t' cost
  print :
      (sheets : Option ℤ) (now : ℕ)
      → in_hand t.state ≡ true
      → is_negative sheets ≡ false
      → t' ≡ record t {
        state = printed;
        actual_sheets = sheets;
        finished_at = some now;
        lease_expires_at = none;
      }
      → cost ≡ get_or sheets t.predicted_sheets
      → Step t t' cost
  fail :
      (sheets : Option ℤ) (code message : Option String) (now : ℕ)
      → in_hand t.state ≡ true
      → is_negative sheets ≡ false
      → t' ≡ record t {
        state = failed;
        actual_sheets = sheets;
        error_code = code;
        error_message = message;
        finished_at = some now;
        lease_expires_at = none;
      }
      → cost ≡ get_or sheets (pos 0)
      → Step t t' cost
  block :
      (reason : String) (message : Option String)
      → in_hand t.state ≡ true
      → t' ≡ record t {
        state = blocked;
        error_code = some reason;
        error_message = message;
        claimed_at = none;
        lease_expires_at = none;
      }
      → cost ≡ pos 0
      → Step t t' cost
  renew :
      (now : ℕ)
      → in_hand t.state ≡ true
      → t' ≡ record t { lease_expires_at = some (now + lease) }
      → cost ≡ pos 0
      → Step t t' cost
  expire : (now : ℕ) → is_stale now t ≡ true → t' ≡ expired now t → cost ≡ pos 0 → Step t t' cost
  confirm :
      (now : ℕ)
      → t.state ≡ failed
      → t' ≡ record t {
        state = printed;
        actual_sheets = some (max_ℤ (get_or t.actual_sheets (pos 0)) t.predicted_sheets);
        error_code = none;
        error_message = none;
        finished_at = some now;
        lease_expires_at = none;
      }
      → cost ≡ max_ℤ (pos 0) (t.predicted_sheets -ℤ get_or t.actual_sheets (pos 0))
      → Step t t' cost

-- The sheets that a task's row says were taken for it.
abbrev pub accounted : PrintTask → ℤ
accounted t = elim t.state [
  | printed ↦ get_or t.actual_sheets t.predicted_sheets
  | failed ↦ get_or t.actual_sheets (pos 0)
  | _ ↦ pos 0
]

-- What holds of every row.
pub record IsSound (t : PrintTask) : Type 0 where
  pub unclaimed : t.state ≡ queued → t.attempts ≡ 0
  pub once : t.attempts ≤ 1
  pub unreported : is_terminal t.state ≡ false → t.actual_sheets ≡ none

pub Step-IsSound : {t t' : PrintTask} {c : ℤ} → Step t t' c → IsSound t → IsSound t'
Step-IsSound (claim now q e _) h = ground arith
Step-IsSound (start now q e _) h = ground arith
Step-IsSound (print n now q _ e y) h = ground arith
Step-IsSound (fail n c m now q _ e y) h = ground arith
Step-IsSound (block r m q e _) h = ground arith
Step-IsSound (renew now q e _) h = ground arith
Step-IsSound (expire now q e _) h = ground arith
Step-IsSound (confirm now q e _) h = ground arith

confirm_sum :
    (before already predicted cost : ℤ)
    → before ≡ already
    → cost ≡ max_ℤ (pos 0) (predicted -ℤ already)
    → max_ℤ already predicted ≡ before +ℤ cost
confirm_sum before already predicted cost e c = max_ℤ_sum already predicted ∙ rw (e, c)

-- A step takes exactly what it adds to the row's account.
pub Step-accounted :
    {t t' : PrintTask} {c : ℤ} → Step t t' c → IsSound t → accounted t' ≡ accounted t +ℤ c
Step-accounted {t} {t'} {c = z} (claim now q e y) h = ground (arith, zero-+ℤ z)
Step-accounted {t} {t'} {c = z} (start now q e y) h = ground (arith, zero-+ℤ z)
Step-accounted {t} {t'} {c = z} (print n now q _ e y) h = ground (arith, zero-+ℤ z)
Step-accounted {t} {t'} {c = z} (fail n c m now q _ e y) h = ground (arith, zero-+ℤ z)
Step-accounted {t} {t'} {c = z} (block r m q e y) h = ground (arith, zero-+ℤ z)
Step-accounted {t} {t'} {c = z} (renew now q e y) h = ground (arith, zero-+ℤ z)
Step-accounted {t} {t'} {c = z} (expire now q e y) h = ground (arith, zero-+ℤ z)
Step-accounted {t} {t'} {c = z} (confirm now q e y) h =
    ap accounted e
    ∙ confirm_sum (accounted t) (get_or t.actual_sheets (pos 0)) t.predicted_sheets z (rw q) y
