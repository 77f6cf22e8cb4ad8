-- ===== src/Wiring/Paper.antt =====
-- The log of the trays and the rows of the print tasks.
use printvendo_backend.Prelude.{
  ◌==◌, Bool-cases, get_or, ℤ, pos, pos_part, neg_part, ◌+ℤ◌, ltb_ℤ, int_laws, Result, ok, err, ℕ,
  String, ◌≡◌, refl, sym, ap, ◌∙◌, subst, inl, inr, Option, some, List, [], ◌∷◌,
}
use printvendo_backend.Printing.Models.{PrintTask, Shop}
use printvendo_backend.Printing.Queue.{Event, run}
use printvendo_backend.Printing.Queue.Table.{sum_of}
use printvendo_backend.Printing.Queue.Steps.{accounted}
use printvendo_backend.Printing.Queue.Accounts.{IsTable, run-IsTable, run-accounted}
use printvendo_backend.Kiosks.Paper.{given, printed_note, PaperRefillLog, Trays, consume_paper}
use printvendo_backend.Kiosks.Paper.Bounds.{paper_of-Reads}
use printvendo_backend.Wiring.{
  Premises, on_trays, kiosk_paper_ledger, order_outcome, ledger_kiosk, serve_request, serve_all,
}

-- The sheets that a row of the log says a print used.
abbrev pub printed_in : PaperRefillLog → ℤ
printed_in row = elim row.note [
  | given text ↦ pos 0
  | printed_note used actual predicted reference ↦ used
]

unfoldable pub printed_sheets : List PaperRefillLog → ℤ
printed_sheets [] = pos 0
printed_sheets (row ∷ rows) = printed_in row +ℤ printed_sheets rows

add_comm : (a b : ℤ) → a +ℤ b ≡ b +ℤ a
add_comm a b = omega int_laws

-- What a deduction has done to the log, if it was accepted.
abbrev LogsIf : ℤ → Trays → Result ℤ × Trays → Type 0
LogsIf used t (err e, t') = Unit
LogsIf used t (ok left, t') = printed_sheets t'.log ≡ printed_sheets t.log +ℤ used

consume_paper-LogsIf :
    (k : ℕ) (predicted : ℤ) (actual : Option ℤ) (reference : Option String) (t : Trays)
    → LogsIf (get_or actual predicted) t (consume_paper k predicted actual reference t)
unfolding consume_paper printed_sheets
consume_paper-LogsIf k predicted actual reference t =
    elim (Bool-cases (ltb_ℤ (get_or actual predicted) (pos 0))) [
      | inl less ↦ rw less tt
      | inr fine ↦
          let (p, t', r) = paper_of-Reads k t in
          rw (fine, r.gives)
            (add_comm (get_or actual predicted) (printed_sheets t'.log)
              ∙ ap (λ rows. printed_sheets rows +ℤ get_or actual predicted) r.log_kept)
    ]

abbrev TakesIf : ℤ → Premises → Result (Unit {0}) × Premises → Type 0
TakesIf used l (err e, l') = Unit
TakesIf used l (ok u, l') = printed_sheets l'.trays.log ≡ printed_sheets l.trays.log +ℤ used

on_trays-TakesIf :
    (used : ℤ) (l : Premises) (r : Result ℤ × Trays)
    → LogsIf used l.trays r
    → TakesIf used l (on_trays r l)
on_trays-TakesIf used l (err e, t) h = tt
on_trays-TakesIf used l (ok left, t) h = h

ledger-TakesIf :
    (own k : ℕ) (predicted : ℤ) (actual : Option ℤ) (reference : String) (l : Premises)
    → TakesIf
        (get_or actual predicted)
        l
        ((kiosk_paper_ledger own).consume k predicted actual reference l)
unfolding kiosk_paper_ledger
ledger-TakesIf own k predicted actual reference l = elim (Bool-cases (k == own)) [
  | inr other ↦ rw other tt
  | inl mine ↦ rw mine (
      on_trays-TakesIf (get_or actual predicted) l
        (consume_paper own predicted actual (some reference) l.trays)
        (consume_paper-LogsIf own predicted actual (some reference) l.trays))
]

-- The log's sheets are what a ledger of any kiosk takes, and the orders take none.
ledger_consumes :
    (own k : ℕ) (p : ℤ) (a : Option ℤ) (r : String) (l l' : Premises)
    → (kiosk_paper_ledger own).consume k p a r l ≡ (ok tt, l')
    → printed_sheets l'.trays.log ≡ printed_sheets l.trays.log +ℤ get_or a p
ledger_consumes own k p a r l l' e = subst (TakesIf (get_or a p) l) e (ledger-TakesIf own k p a r l)

order_outcome_moves :
    (t : PrintTask) (ts : List PrintTask) (l l' : Premises)
    → order_outcome.task_moved t ts l ≡ (ok tt, l')
    → printed_sheets l'.trays.log ≡ printed_sheets l.trays.log
unfolding order_outcome
order_outcome_moves t ts l l' e = sym (ap (λ r. printed_sheets r.1.trays.log) e)

serve_request-IsTable :
    (e : Event) (s : Shop Premises) → IsTable s.tasks → IsTable (serve_request e s).tasks
unfolding serve_request run
serve_request-IsTable e s h =
    let own = ledger_kiosk e s.tasks in
    run-IsTable (kiosk_paper_ledger own) order_outcome (λ l. printed_sheets l.trays.log)
      (ledger_consumes own) order_outcome_moves (e ∷ []) s h

serve_request-logged :
    (e : Event) (s : Shop Premises)
    → IsTable s.tasks
    → let s' = serve_request e s in
      printed_sheets s'.outside.trays.log +ℤ sum_of accounted s.tasks
      ≡ printed_sheets s.outside.trays.log +ℤ sum_of accounted s'.tasks
unfolding serve_request run
serve_request-logged e s h =
    let own = ledger_kiosk e s.tasks in
    run-accounted (kiosk_paper_ledger own) order_outcome (λ l. printed_sheets l.trays.log)
      (ledger_consumes own) order_outcome_moves (e ∷ []) s h

chained : (l m n a b c : ℤ) → m +ℤ a ≡ l +ℤ b → n +ℤ b ≡ m +ℤ c → n +ℤ a ≡ l +ℤ c
chained l m n a b c p q =
    let p0 = ap pos_part p in
    let p1 = ap neg_part p in let q0 = ap pos_part q in let q1 = ap neg_part q in omega int_laws

-- With the paper and the orders of the program behind the print queue, and a ledger made for the
-- kiosk of each request: after any requests, of the devices of all kiosks and of operators, from a
-- table of print tasks with distinct ids and sound rows, what the rows of the paper log say that
-- prints used, since the start, is the change of what the rows of the tasks account for.
pub run-logged :
    (es : List Event) (s : Shop Premises)
    → IsTable s.tasks
    → let s' = serve_all es s in
      printed_sheets s'.outside.trays.log +ℤ sum_of accounted s.tasks
      ≡ printed_sheets s.outside.trays.log +ℤ sum_of accounted s'.tasks
unfolding serve_all
run-logged [] s h = refl
run-logged (e ∷ es) s h =
    let s1 = serve_request e s in
    let s2 = serve_all es s1 in
    chained (printed_sheets s.outside.trays.log) (printed_sheets s1.outside.trays.log)
      (printed_sheets s2.outside.trays.log) (sum_of accounted s.tasks) (sum_of accounted s1.tasks)
      (sum_of accounted s2.tasks) (serve_request-logged e s h)
      (run-logged es s1 (serve_request-IsTable e s h))
