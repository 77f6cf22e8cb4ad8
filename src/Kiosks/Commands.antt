-- ===== src/Kiosks/Commands.antt =====
-- app/modules/kiosks/commands.py: what an operator asks of the machine in a shop. The rows are kept
-- newest first. A device is its kiosk's id, and waking it is a list of the kiosks that were woken.
pub mod Waiting
mod Examples
use printvendo_backend.Prelude.{
  ltb, leb, ◌==◌, if◌then◌else◌, filter, find, any, update_where, no_device, no_such_command,
  command_finished, bad_request, not_found, ok, err, Exec, pure, transaction, ℕ, ◌+◌, String, Bool,
  true, false, not, ◌&&◌, Option, none, some, List, [], ◌∷◌, map, str_eq,
}
use mathlib.Core.List.{reverse}

pub data DeviceCommandKind : Type 0 where
  restart_agent restart_printing update_agent : DeviceCommandKind

pub data DeviceCommandState : Type 0 where
  queued sent succeeded failed expired : DeviceCommandState

pub record KioskDeviceCommand : Type 0 where
  pub id : ℕ
  pub public_id : String
  pub kiosk_id : ℕ
  pub requested_by_user_id : Option ℕ
  pub kind : DeviceCommandKind
  pub state : DeviceCommandState
  pub expires_at : ℕ
  pub sent_at : Option ℕ
  pub finished_at : Option ℕ
  pub error_message : Option String

pub record Desk : Type 0 where
  pub devices : List ℕ
  pub commands : List KioskDeviceCommand
  pub next_id : ℕ
  pub woken : List ℕ

-- COMMAND_LIFETIME, in seconds
abbrev pub command_lifetime : ℕ
command_lifetime = 600

-- OPEN_STATES
abbrev pub is_open : DeviceCommandState → Bool
is_open queued = true
is_open sent = true
is_open _ = false

abbrev kind_number : DeviceCommandKind → ℕ
kind_number restart_agent = 0
kind_number restart_printing = 1
kind_number update_agent = 2

abbrev pub same_kind : DeviceCommandKind → DeviceCommandKind → Bool
same_kind a b = kind_number a == kind_number b

-- A request of one kind at one kiosk that may still be run.
abbrev pub waiting : ℕ → DeviceCommandKind → ℕ → KioskDeviceCommand → Bool
waiting kiosk_id kind now c =
    c.kiosk_id == kiosk_id && same_kind c.kind kind && is_open c.state && ltb now c.expires_at

-- The row that is written; the column's default gives the public id.
abbrev pub new_command : ℕ → String → ℕ → DeviceCommandKind → Option ℕ → ℕ → KioskDeviceCommand
new_command id public_id kiosk_id kind by now = record {
  id = id;
  public_id = public_id;
  kiosk_id = kiosk_id;
  requested_by_user_id = by;
  kind = kind;
  state = queued;
  expires_at = now + command_lifetime;
  sent_at = none;
  finished_at = none;
  error_message = none;
}

abbrev insert_command : KioskDeviceCommand → Exec Desk KioskDeviceCommand
insert_command c d = (
  ok c,
  record d { commands = c ∷ d.commands; next_id = d.next_id + 1; woken = c.kiosk_id ∷ d.woken },
)

abbrev or_insert : Option KioskDeviceCommand → KioskDeviceCommand → Exec Desk KioskDeviceCommand
or_insert (some c) _ = pure c
or_insert none c = insert_command c

unfoldable pub request_command :
    ℕ → DeviceCommandKind → String → Option ℕ → ℕ → Exec Desk KioskDeviceCommand
request_command kiosk_id kind public_id by now d =
    if not (any (λ k. k == kiosk_id) d.devices)
    then (err (bad_request no_device), d)
    else or_insert (find (waiting kiosk_id kind now) d.commands)
        (new_command d.next_id public_id kiosk_id kind by now) d

abbrev pub is_queued : DeviceCommandState → Bool
is_queued queued = true
is_queued _ = false

abbrev pub queued_at : ℕ → KioskDeviceCommand → Bool
queued_at kiosk_id c = c.kiosk_id == kiosk_id && is_queued c.state

-- What the claim makes of a queued row.
abbrev pub taken_up : ℕ → KioskDeviceCommand → KioskDeviceCommand
taken_up now c =
    if leb c.expires_at now
    then record c { state = expired; finished_at = some now }
    else record c { state = sent; sent_at = some now }

abbrev in_time : ℕ → ℕ → KioskDeviceCommand → Bool
in_time kiosk_id now c = queued_at kiosk_id c && not (leb c.expires_at now)

unfoldable pub claim_commands : ℕ → ℕ → Exec Desk (List KioskDeviceCommand)
claim_commands kiosk_id now d = (
  ok (reverse (map (taken_up now) (filter (in_time kiosk_id now) d.commands))),
  record d { commands = update_where (queued_at kiosk_id) (taken_up now) d.commands },
)

abbrev pub named_command : ℕ → String → KioskDeviceCommand → Bool
named_command kiosk_id public_id c = str_eq c.public_id public_id && c.kiosk_id == kiosk_id

abbrev pub finished : Bool → Option String → ℕ → KioskDeviceCommand → KioskDeviceCommand
finished ok_or_not message now c = record c {
  state = if ok_or_not then succeeded else failed;
  error_message = if ok_or_not then none else message;
  finished_at = some now;
}

abbrev report_found :
    Option KioskDeviceCommand → Bool → Option String → ℕ → Exec Desk KioskDeviceCommand
report_found none _ _ _ d = (err (not_found no_such_command), d)
report_found (some c) ok_or_not message now d =
    if not (is_open c.state) then (err (bad_request command_finished), d) else (
      ok (finished ok_or_not message now c),
      record d {
        commands =
            update_where (λ x. x.id == c.id) (λ _. finished ok_or_not message now c) d.commands;
      },
    )

unfoldable pub report_command : ℕ → String → Bool → Option String → ℕ → Exec Desk KioskDeviceCommand
report_command kiosk_id public_id ok_or_not error_message now d =
    report_found (find (named_command kiosk_id public_id) d.commands) ok_or_not error_message now d

-- What operators and machines ask, with the time of it.
pub data Ask : Type 0 where
  requests : ℕ → DeviceCommandKind → String → Option ℕ → Ask
  takes : ℕ → Ask
  reports : ℕ → String → Bool → Option String → Ask

unfoldable pub answer : ℕ → Ask → Desk → Desk
unfolding request_command claim_commands report_command
answer now (requests kiosk_id kind public_id by) d =
    (transaction (request_command kiosk_id kind public_id by now) d).1
answer now (takes kiosk_id) d = (transaction (claim_commands kiosk_id now) d).1
answer now (reports kiosk_id public_id ok_or_not message) d =
    (transaction (report_command kiosk_id public_id ok_or_not message now) d).1

-- The seconds between one request and the next come first.
unfoldable pub run_desk : ℕ → List (ℕ × Ask) → Desk → ℕ × Desk
unfolding answer
run_desk now [] d = (now, d)
run_desk now ((pause, a) ∷ rest) d = run_desk (now + pause) rest (answer (now + pause) a d)
