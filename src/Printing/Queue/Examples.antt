-- ===== src/Printing/Queue/Examples.antt =====
-- Tests and instances of the print queue's theorems, with a ledger that counts the sheets.
use printvendo_backend.Prelude.{
  get_or, ℤ, pos, ◌+ℤ◌, ◌-ℤ◌, Result, ok, ℕ, String, ◌≡◌, refl, sym, ap, inl, true, false, Option,
  none, some, List, [], ◌∷◌, arith,
}
use printvendo_backend.Printing.Models.{blocked, PrintTask, Shop, PaperLedger, no_outcome}
use printvendo_backend.Printing.Options.Workload.{PrintOptions}
use printvendo_backend.Printing.Queue.{
  Event, enqueues, claims, starts, prints, sweeps, confirms, next_id, apply, run,
}
use printvendo_backend.Printing.Queue.Table.{IsIn, sum_of}
use printvendo_backend.Printing.Queue.Steps.{accounted, IsSound}
use printvendo_backend.Printing.Queue.Accounts.{IsTable, run-IsTable, run-accounted}
use printvendo_backend.Printing.Queue.Settled.{run-settled}

abbrev counter : PaperLedger ℤ
counter = record {
  consume = λ kiosk predicted actual reference taken. (ok tt, taken +ℤ get_or actual predicted);
}

same_outside : (p q : Result (Unit {0}) × ℤ) → p ≡ q → q.1 ≡ p.1
same_outside p q e = sym (ap (λ r. r.1) e)

counter_consumes :
    (k : ℕ) (p : ℤ) (a : Option ℤ) (r : String) (l l' : ℤ)
    → counter.consume k p a r l ≡ (ok tt, l')
    → l' ≡ l +ℤ get_or a p
counter_consumes k p a r l l' e = same_outside (ok tt, l +ℤ get_or a p) (ok tt, l') e

counter_moves :
    (t : PrintTask) (ts : List PrintTask) (l l' : ℤ)
    → (no_outcome {L = ℤ}).task_moved t ts l ≡ (ok tt, l')
    → l' ≡ l
counter_moves t ts l l' e = same_outside (ok tt, l) (ok tt, l') e

abbrev duplex_pair : PrintOptions
duplex_pair = record { copies = 2; duplex = true; colour = false; page_range = none }

abbrev closed_shop : Shop ℤ
closed_shop = record { tasks = []; outside = pos 0 }

-- Two jobs at kiosk 7: the first is printed on five sheets where six were predicted, the second
-- falls silent, is failed by the sweep, and an operator confirms it.
abbrev script : List Event
script =
    enqueues "ptk_1" 100 1 7 duplex_pair 5 0
    ∷ enqueues "ptk_2" 101 2 7 duplex_pair 5 0
    ∷ claims 7 110
    ∷ starts 7 "ptk_1" 120
    ∷ prints 7 "ptk_1" (some (pos 5)) 130
    ∷ prints 7 "ptk_1" (some (pos 5)) 131
    ∷ claims 7 140
    ∷ sweeps 1041
    ∷ confirms 2 2000
    ∷ []

-- The second report of the first job is refused, so it takes nothing.
run-script_takes : (run counter no_outcome script closed_shop).outside ≡ pos 11
unfolding run apply ◌+ℤ◌ ◌-ℤ◌ next_id
run-script_takes = refl

IsTable-empty : IsTable []
IsTable-empty = record { distinct = tt; sound = tt }

run-IsTable_example : IsTable (run counter no_outcome script closed_shop).tasks
run-IsTable_example =
    run-IsTable counter no_outcome (λ l. l) counter_consumes counter_moves script closed_shop
      IsTable-empty

run-accounted_example :
    let s' = run counter no_outcome script closed_shop in
    s'.outside +ℤ sum_of accounted [] ≡ pos 0 +ℤ sum_of accounted s'.tasks
run-accounted_example =
    run-accounted counter no_outcome (λ l. l) counter_consumes counter_moves script closed_shop
      IsTable-empty

abbrev jammed_task : PrintTask
jammed_task = record {
  id = 1;
  public_id = "ptk_1";
  document_id = 1;
  kiosk_id = 7;
  state = blocked;
  position = 0;
  colour = false;
  duplex = false;
  copies = 1;
  page_range = none;
  predicted_sheets = pos 5;
  actual_sheets = none;
  claimed_at = none;
  lease_expires_at = none;
  attempts = 1;
  started_at = some 110;
  finished_at = none;
  error_code = some "OUT_OF_PAPER";
  error_message = none;
  created_at = 100;
}

abbrev jammed_shop : Shop ℤ
jammed_shop = record { tasks = jammed_task ∷ []; outside = pos 0 }

jammed_task-IsSound : IsSound jammed_task
jammed_task-IsSound = record { unclaimed = λ e. cc; once = omega arith; unreported = λ _. refl }

jammed_shop-IsTable : IsTable jammed_shop.tasks
jammed_shop-IsTable = record { distinct = (refl, tt); sound = (jammed_task-IsSound, tt) }

run-settled_example : IsIn jammed_task (run counter no_outcome script jammed_shop).tasks
run-settled_example =
    run-settled counter no_outcome (λ l. l) counter_consumes counter_moves script jammed_shop
      jammed_task jammed_shop-IsTable refl (inl refl)
