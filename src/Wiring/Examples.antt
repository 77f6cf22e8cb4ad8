-- ===== src/Wiring/Examples.antt =====
-- Tests and instances of the theorem on the tray's log.
use printvendo_backend.Prelude.{pos, ◌+ℤ◌, ◌-ℤ◌, ◌≡◌, refl, false, none, some, List, [], ◌∷◌}
use printvendo_backend.Printing.Models.{Shop}
use printvendo_backend.Printing.Options.Workload.{PrintOptions}
use printvendo_backend.Printing.Queue.{
  Event, enqueues, claims, starts, prints, sweeps, confirms, next_id, apply,
}
use printvendo_backend.Printing.Queue.Table.{sum_of}
use printvendo_backend.Printing.Queue.Steps.{accounted}
use printvendo_backend.Wiring.{
  Premises, kiosk_paper_ledger, order_outcome, ledger_kiosk, serve_request, serve_all,
}
use printvendo_backend.Wiring.Paper.{printed_sheets, run-logged}

abbrev new_premises : Shop Premises
new_premises = record {
  tasks = [];
  outside = record { trays = record { papers = []; log = []; audit = [] }; orders = [] };
}

abbrev five_pages : PrintOptions
five_pages = record { colour = false; duplex = false; copies = 1; page_range = none }

-- A print at one kiosk that used one sheet more than predicted, and one at another that fell silent
-- and is confirmed.
abbrev two_jobs : List Event
two_jobs =
    enqueues "ptk_1" 100 1 7 five_pages 5 0
    ∷ enqueues "ptk_2" 101 2 8 five_pages 5 0
    ∷ claims 7 110
    ∷ starts 7 "ptk_1" 120
    ∷ prints 7 "ptk_1" (some (pos 6)) 130
    ∷ claims 8 140
    ∷ sweeps 1041
    ∷ confirms 2 2000
    ∷ []

-- The paper of both was taken.
two_jobs_taken : printed_sheets (serve_all two_jobs new_premises).outside.trays.log ≡ pos 11
unfolding serve_all serve_request printed_sheets apply kiosk_paper_ledger order_outcome ledger_kiosk
    ◌+ℤ◌ ◌-ℤ◌ next_id
two_jobs_taken = refl

run-logged_example :
    let s' = serve_all two_jobs new_premises in
    printed_sheets s'.outside.trays.log +ℤ sum_of accounted []
    ≡ printed_sheets [] +ℤ sum_of accounted s'.tasks
run-logged_example = run-logged two_jobs new_premises (record { distinct = tt; sound = tt })
