-- ===== src/Wiring.antt =====
-- app/api/deps.py and app/api/device: the print queue with the paper and the orders of the program.
pub mod Paper
mod Examples
use printvendo_backend.Prelude.{
  ◌==◌, if◌then◌else◌, find, ℤ, other_kiosk, forbidden, Result, ok, err, Exec, ℕ, String, Option,
  none, some, List, [], ◌∷◌,
}
use printvendo_backend.Printing.Queue.{Event, prints, fails, confirms, apply}
use printvendo_backend.Printing.Models.{PrintTask, Shop, PaperLedger, TaskOutcome, has_id}
use printvendo_backend.Kiosks.Paper.{Trays, consume_paper}
use printvendo_backend.Orders.Models.{Order}
use printvendo_backend.Orders.Progress.{refresh_order_state}

-- What the seams of printing reach: the trays of the kiosks, and the orders.
pub record Premises : Type 0 where
  pub trays : Trays
  pub orders : List Order

abbrev pub on_trays : Result ℤ × Trays → Premises → Result (Unit {0}) × Premises
on_trays (ok left, trays) l = (ok tt, record l { trays = trays })
on_trays (err e, trays) l = (err e, record l { trays = trays })

-- `KioskPaperLedger`, made for one kiosk, whose id is `own`.
abbrev pub consume_at : ℕ → ℕ → ℤ → Option ℤ → String → Exec Premises (Unit {0})
unfolding consume_paper
consume_at own kiosk_id predicted actual reference l =
    if kiosk_id == own
    then on_trays (consume_paper own predicted actual (some reference) l.trays) l
    else (err (forbidden other_kiosk), l)

unfoldable pub kiosk_paper_ledger : ℕ → PaperLedger Premises
unfolding consume_at
kiosk_paper_ledger own = record { consume = consume_at own }

-- The task's order is refreshed, with the tasks as they stand.
unfoldable pub order_outcome : TaskOutcome Premises
unfolding refresh_order_state
order_outcome = record {
  task_moved = λ task tasks l. (
    ok tt,
    record l { orders = refresh_order_state task.document_id task.kiosk_id tasks l.orders },
  );
}

abbrev kiosk_of : Option PrintTask → ℕ
kiosk_of none = 0
kiosk_of (some t) = t.kiosk_id

-- The kiosk for which a request makes its ledger: the one whose device reports, or the one at which
-- the print is that an operator confirms. Other requests take no paper.
unfoldable pub ledger_kiosk : Event → List PrintTask → ℕ
ledger_kiosk (prints kiosk_id public_id sheets now) tasks = kiosk_id
ledger_kiosk (fails kiosk_id public_id sheets code message now) tasks = kiosk_id
ledger_kiosk (confirms id now) tasks = kiosk_of (find (has_id id) tasks)
ledger_kiosk _ tasks = 0

-- A request, with the ledger that is made for it.
unfoldable pub serve_request : Event → Shop Premises → Shop Premises
unfolding apply kiosk_paper_ledger order_outcome ledger_kiosk
serve_request e s = apply (kiosk_paper_ledger (ledger_kiosk e s.tasks)) order_outcome e s

unfoldable pub serve_all : List Event → Shop Premises → Shop Premises
unfolding serve_request
serve_all [] s = s
serve_all (e ∷ es) s = serve_all es (serve_request e s)
