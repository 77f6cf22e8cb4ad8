-- ===== src/Kiosks/Paper.antt =====
-- app/modules/kiosks/paper.py: how much is in the tray, and who changed it.
-- Sheets are Python ints. A log row and an audit entry are written for each change; the sentence in
-- a note is kept as the values that are written into it.
pub mod Bounds
pub mod Changes
mod Examples
use printvendo_backend.Prelude.{
  ◌==◌, if◌then◌else◌, get_or, find, update_where, ℤ, pos, ◌+ℤ◌, ◌-ℤ◌, neg, ltb_ℤ, leb_ℤ, min_ℤ,
  max_ℤ, no_tray_given, tray_too_small, sheets_negative, tray_overfull, bad_request, ok, err, Exec,
  pure, transaction, continue, ◌>>=◌, ◌>>◌, raise_if, ℕ, String, Bool, true, false, Option, none,
  some, List, [], ◌∷◌,
}

pub record KioskPaper : Type 0 where
  pub kiosk_id : ℕ
  pub capacity : ℤ
  pub used : ℤ
  pub warning_count : ℕ
  pub last_warning_at : Option ℕ
  pub last_reminder_at : Option ℕ

-- A note that was given, or the used, reported and expected sheets of a print and its reference.
pub data LogNote : Type 0 where
  given : Option String → LogNote
  printed_note : ℤ → Option ℤ → ℤ → Option String → LogNote

pub data PaperAction : Type 0 where
  paper_reset paper_set paper_consumed : PaperAction

pub record PaperRefillLog : Type 0 where
  pub kiosk_id : ℕ
  pub actor_user_id : Option ℕ
  pub sheets_added : ℤ
  pub capacity_at_change : ℤ
  pub used_before_change : ℤ
  pub note : LogNote

pub record PaperAudit : Type 0 where
  pub action : PaperAction
  pub kiosk_id : ℕ
  pub actor_user_id : Option ℕ
  pub used_before : ℤ
  pub used_after : ℤ
  pub capacity : ℤ
  pub note : LogNote

-- The tables, the newest row first.
pub record Trays : Type 0 where
  pub papers : List KioskPaper
  pub log : List PaperRefillLog
  pub audit : List PaperAudit

abbrev pub default_paper_capacity : ℕ
default_paper_capacity = 250

abbrev pub paper_at : ℕ → KioskPaper → Bool
paper_at kiosk_id p = p.kiosk_id == kiosk_id

abbrev pub new_paper : ℕ → KioskPaper
new_paper kiosk_id = record {
  kiosk_id = kiosk_id;
  capacity = pos default_paper_capacity;
  used = pos 0;
  warning_count = 0;
  last_warning_at = none;
  last_reminder_at = none;
}

-- `_paper`: the row of a kiosk, written when there is none.
abbrev pub found_or_new : ℕ → Option KioskPaper → Exec Trays KioskPaper
found_or_new kiosk_id (some paper) s = (ok paper, s)
found_or_new kiosk_id none s =
    (ok (new_paper kiosk_id), record s { papers = new_paper kiosk_id ∷ s.papers })

unfoldable pub paper_of : ℕ → Exec Trays KioskPaper
paper_of kiosk_id s = found_or_new kiosk_id (find (paper_at kiosk_id) s.papers) s

abbrev pub save_paper : KioskPaper → Exec Trays (Unit {0})
save_paper paper s =
    (ok tt, record s { papers = update_where (paper_at paper.kiosk_id) (λ _. paper) s.papers })

abbrev pub left_in : KioskPaper → ℤ
left_in paper = max_ℤ (pos 0) (paper.capacity -ℤ paper.used)

unfoldable pub sheets_remaining : ℕ → Exec Trays ℤ
unfolding paper_of
sheets_remaining kiosk_id = do paper ← paper_of kiosk_id; pure (left_in paper)

abbrev pub clear_warning_throttle : KioskPaper → KioskPaper
clear_warning_throttle paper = record paper {
  warning_count = 0;
  last_warning_at = none;
  last_reminder_at = none;
}

-- `_log`: the row of the log and the entry of the audit.
abbrev pub log_change :
    KioskPaper → ℤ → ℤ → Option ℕ → LogNote → PaperAction → Exec Trays (Unit {0})
log_change paper sheets_added used_before actor note action s = (
  ok tt,
  record s {
    log =
        record {
          kiosk_id = paper.kiosk_id;
          actor_user_id = actor;
          sheets_added = sheets_added;
          capacity_at_change = paper.capacity;
          used_before_change = used_before;
          note = note;
        }
        ∷ s.log;
    audit =
        record {
          action = action;
          kiosk_id = paper.kiosk_id;
          actor_user_id = actor;
          used_before = used_before;
          used_after = paper.used;
          capacity = paper.capacity;
          note = note;
        }
        ∷ s.audit;
  },
)

-- The row that each operation writes.
abbrev pub when_reset : KioskPaper → KioskPaper
when_reset paper = clear_warning_throttle (record paper { used = pos 0 })

abbrev pub when_set : KioskPaper → ℤ → ℤ → KioskPaper
when_set sized old_left new_left =
    let refilled = record sized { used = sized.capacity -ℤ new_left } in
    if ltb_ℤ old_left new_left then clear_warning_throttle refilled else refilled

abbrev pub when_printed : KioskPaper → ℤ → KioskPaper
when_printed paper sheets = record paper { used = min_ℤ paper.capacity (paper.used +ℤ sheets) }

unfoldable pub reset_paper : ℕ → Option ℕ → Exec Trays ℤ
unfolding paper_of
reset_paper kiosk_id actor = do
  paper ← paper_of kiosk_id
  let paper' = when_reset paper
  save_paper paper'
  log_change paper' paper.used paper.used actor (given (some "reset to full")) paper_reset
  pure paper'.capacity

-- The part of `set_paper` after the arguments are known to say something; `paper` is as read, and
-- `sized` has the capacity that was asked for.
unfoldable pub set_sized :
    KioskPaper → KioskPaper → Option ℤ → Option ℕ → Option String → Exec Trays ℤ
set_sized paper sized sheets_left actor note = do
  let old_left = left_in paper
  let new_left = get_or sheets_left old_left
  raise_if (ltb_ℤ new_left (pos 0)) (bad_request sheets_negative)
  raise_if (ltb_ℤ sized.capacity new_left) (bad_request tray_overfull)
  let paper' = when_set sized old_left new_left
  save_paper paper'
  log_change paper' (max_ℤ (pos 0) (new_left -ℤ old_left)) paper.used actor (given note) paper_set
  pure new_left

abbrev pub resized : KioskPaper → Option ℤ → Exec Trays KioskPaper
resized paper none s = (ok paper, s)
resized paper (some capacity) s =
    if ltb_ℤ capacity (pos 1)
    then (err (bad_request tray_too_small), s)
    else continue (save_paper (record paper { capacity = capacity }) s)
        (λ _. pure (record paper { capacity = capacity }))

abbrev pub neither : Option ℤ → Option ℤ → Bool
neither none none = true
neither _ _ = false

unfoldable pub set_paper : ℕ → Option ℤ → Option ℤ → Option ℕ → Option String → Exec Trays ℤ
unfolding paper_of set_sized
set_paper kiosk_id capacity sheets_left actor note = do
  raise_if (neither capacity sheets_left) (bad_request no_tray_given)
  paper ← paper_of kiosk_id
  sized ← resized paper capacity
  set_sized paper sized sheets_left actor note

unfoldable pub mark_out_of_paper : ℕ → Option ℕ → Exec Trays ℤ
unfolding set_paper
mark_out_of_paper kiosk_id actor =
    set_paper kiosk_id none (some (pos 0)) actor (some "reported empty")

unfoldable pub consume_paper : ℕ → ℤ → Option ℤ → Option String → Exec Trays ℤ
unfolding paper_of
consume_paper kiosk_id predicted actual reference = do
  let used = get_or actual predicted
  raise_if (ltb_ℤ used (pos 0)) (bad_request sheets_negative)
  paper ← paper_of kiosk_id
  let paper' = when_printed paper used
  save_paper paper'
  log_change paper' (neg used) paper.used none (printed_note used actual predicted reference)
      paper_consumed
  pure (left_in paper')

unfoldable pub can_print : ℕ → ℤ → Exec Trays Bool
unfolding sheets_remaining
can_print kiosk_id sheets_needed = do
  left ← sheets_remaining kiosk_id
  pure (leb_ℤ sheets_needed left)

-- The requests that change a tray, each in a transaction.
pub data Change : Type 0 where
  resets : Option ℕ → Change
  sets : Option ℤ → Option ℤ → Option ℕ → Option String → Change
  empties : Option ℕ → Change
  consumes : ℤ → Option ℤ → Option String → Change

unfoldable pub change : ℕ → Change → Exec Trays ℤ
unfolding reset_paper set_paper mark_out_of_paper consume_paper
change kiosk_id (resets actor) = transaction (reset_paper kiosk_id actor)
change kiosk_id (sets capacity left actor note) =
    transaction (set_paper kiosk_id capacity left actor note)
change kiosk_id (empties actor) = transaction (mark_out_of_paper kiosk_id actor)
change kiosk_id (consumes predicted actual reference) =
    transaction (consume_paper kiosk_id predicted actual reference)

unfoldable pub run_changes : List (ℕ × Change) → Trays → Trays
unfolding change
run_changes [] s = s
run_changes ((kiosk_id, c) ∷ cs) s = run_changes cs (change kiosk_id c s).1
