-- ===== src/Printing/Claims.antt =====
-- app/modules/printing/claims.py, enqueue.py and repository.py: the queue of a kiosk.
-- `FOR UPDATE SKIP LOCKED` makes each claim one step on the table. Two queued rows that agree in
-- position and time of creation are claimed in the order of the table.
use printvendo_backend.Prelude.{
  ltb, leb, ◌==◌, if◌then◌else◌, length, filter, find, update_where, ℤ, pos, ◌+ℤ◌, no_such_task,
  not_found, ok, Exec, pure, raise, lift, ◌>>=◌, ◌>>◌, ℕ, ◌+◌, String, Bool, true, false, not, ◌&&◌,
  ◌||◌, Option, none, some, List, [], ◌∷◌, ◌++◌, map, str_eq,
}
use printvendo_backend.Printing.Models.{
  TaskState, queued, sent_to_device, failed, is_terminal, PrintTask, Shop, save,
}
use printvendo_backend.Printing.Tasks.{lease, in_hand}
use printvendo_backend.Printing.Options.Workload.{PrintOptions, Workload, workload}

abbrev pub is_queued : TaskState → Bool
is_queued queued = true
is_queued _ = false

-- The WHERE clause of the claim.
abbrev pub claimable : ℕ → PrintTask → Bool
claimable kiosk_id t = t.kiosk_id == kiosk_id && is_queued t.state

-- `ORDER BY position, created_at`
abbrev pub no_later : PrintTask → PrintTask → Bool
no_later t u =
    ltb t.position u.position || (t.position == u.position && leb t.created_at u.created_at)

abbrev earlier_of : PrintTask → Option PrintTask → Option PrintTask
earlier_of t none = some t
earlier_of t (some u) = some (if no_later t u then t else u)

unfoldable pub first_of_queue : List PrintTask → Option PrintTask
first_of_queue [] = none
first_of_queue (t ∷ ts) = earlier_of t (first_of_queue ts)

abbrev pub claimed_by : ℕ → PrintTask → PrintTask
claimed_by now t = record t {
  state = sent_to_device;
  claimed_at = some now;
  lease_expires_at = some (now + lease);
  attempts = t.attempts + 1;
}

abbrev pub expires_before : ℕ → Option ℕ → Bool
expires_before now none = false
expires_before now (some deadline) = ltb deadline now

-- What the sweep looks for: held, with a deadline that has passed.
abbrev pub is_stale : ℕ → PrintTask → Bool
is_stale now t = in_hand t.state && expires_before now t.lease_expires_at

abbrev pub expired : ℕ → PrintTask → PrintTask
expired now t = record t {
  state = failed;
  error_code = some "LEASE_EXPIRED";
  error_message =
      some
        "The kiosk stopped answering while it had this job. It was not sent again, because it may already have printed.";
  finished_at = some now;
  lease_expires_at = none;
}

-- The rows that a kiosk's device may name.
abbrev pub named : ℕ → String → PrintTask → Bool
named kiosk_id public_id t = t.kiosk_id == kiosk_id && str_eq t.public_id public_id

abbrev pub held_as : ℕ → String → PrintTask → Bool
held_as kiosk_id public_id t = named kiosk_id public_id t && in_hand t.state

-- The row that `enqueue_task` writes. The database gives the id and the time of creation, `new_id`
-- the public id.
unfoldable pub new_task : ℕ → String → ℕ → ℕ → ℕ → PrintOptions → ℕ → Workload → PrintTask
new_task id public_id created_at document_id kiosk_id options position load = record {
  id = id;
  public_id = public_id;
  document_id = document_id;
  kiosk_id = kiosk_id;
  state = queued;
  position = position;
  colour = options.colour;
  duplex = options.duplex;
  copies = options.copies;
  page_range = options.page_range;
  predicted_sheets = pos load.sheets;
  actual_sheets = none;
  claimed_at = none;
  lease_expires_at = none;
  attempts = 0;
  started_at = none;
  finished_at = none;
  error_code = none;
  error_message = none;
  created_at = created_at;
}

module _ {L : Type 0} where
  claim_found : ℕ → Option PrintTask → Exec (Shop L) (Option PrintTask)
  claim_found now none = pure none
  claim_found now (some t) = do let t' = claimed_by now t; save t'; pure (some t')

  unfoldable pub claim_next_task : ℕ → ℕ → Exec (Shop L) (Option PrintTask)
  unfolding claim_found first_of_queue
  claim_next_task kiosk_id now s =
      claim_found now (first_of_queue (filter (claimable kiosk_id) s.tasks)) s

  unfoldable pub renew_lease : PrintTask → ℕ → Exec (Shop L) PrintTask
  renew_lease task now = do
    let task' = record task { lease_expires_at = some (now + lease) }
    save task'
    pure task'

  renew_found : ℕ → Option PrintTask → Exec (Shop L) Bool
  unfolding renew_lease
  renew_found now none = pure false
  renew_found now (some t) = do renew_lease t now; pure true

  unfoldable pub renew_held_lease : ℕ → String → ℕ → Exec (Shop L) Bool
  unfolding renew_found
  renew_held_lease kiosk_id public_id now s =
      renew_found now (find (held_as kiosk_id public_id) s.tasks) s

  unfoldable pub fail_expired : ℕ → Exec (Shop L) (List PrintTask)
  fail_expired now s = (
    ok (map (expired now) (filter (is_stale now) s.tasks)),
    record s { tasks = update_where (is_stale now) (expired now) s.tasks },
  )

  -- `task_for_kiosk`: an id that no row of this kiosk has, well formed or not, is not found.
  or_no_such_task : Option PrintTask → Exec (Shop L) PrintTask
  or_no_such_task none = raise (not_found no_such_task)
  or_no_such_task (some t) = pure t

  unfoldable pub task_for_kiosk : ℕ → String → Exec (Shop L) PrintTask
  unfolding or_no_such_task
  task_for_kiosk kiosk_id public_id s = or_no_such_task (find (named kiosk_id public_id) s.tasks) s

  unfoldable pub insert_task : PrintTask → Exec (Shop L) PrintTask
  insert_task t s = (ok t, record s { tasks = s.tasks ++ t ∷ [] })

  unfoldable pub enqueue_task :
      ℕ → String → ℕ → ℕ → ℕ → PrintOptions → ℕ → ℕ → Exec (Shop L) PrintTask
  unfolding workload new_task insert_task
  enqueue_task id public_id created_at document_id kiosk_id options total_pages position = do
    load ← lift (workload options total_pages)
    insert_task (new_task id public_id created_at document_id kiosk_id options position load)

abbrev pub unfinished_at : ℕ → PrintTask → Bool
unfinished_at kiosk_id t = t.kiosk_id == kiosk_id && not (is_terminal t.state)

total_predicted : List PrintTask → ℤ
total_predicted [] = pos 0
total_predicted (t ∷ ts) = t.predicted_sheets +ℤ total_predicted ts

unfoldable pub committed_sheets : List PrintTask → ℕ → ℤ
unfolding total_predicted
committed_sheets tasks kiosk_id = total_predicted (filter (unfinished_at kiosk_id) tasks)

unfoldable pub queue_depth : List PrintTask → ℕ → ℕ
queue_depth tasks kiosk_id = length (filter (claimable kiosk_id) tasks)
