-- ===== src/Kiosks/Paper/Examples.antt =====
-- Tests and instances of the theorems on paper.
use printvendo_backend.Prelude.{
  length, ℤ, pos, ◌+ℤ◌, ◌-ℤ◌, neg, ◌≤ℤ◌, ◌<ℤ◌, max_ℤ, sheets_negative, bad_request, ok, err,
  transaction, ℕ, ◌≡◌, refl, ◌⊎◌, none, some, List, [], ◌∷◌, arith,
}
use printvendo_backend.Kiosks.Paper.{
  Trays, sheets_remaining, set_paper, consume_paper, Change, sets, consumes, run_changes,
}
use printvendo_backend.Kiosks.Paper.Bounds.{AreTrays, run_changes-AreTrays}
use printvendo_backend.Kiosks.Paper.Changes.{left_at, consume_paper_left, set_paper_left}

abbrev no_trays : Trays
no_trays = record { papers = []; log = []; audit = [] }

abbrev script : List (ℕ × Change)
script =
    (7, sets (some (pos 100)) none none none)
    ∷ (7, sets (some (pos 100)) (some (pos 40)) (some 1) none)
    ∷ (7, consumes (pos 30) none (some "ptk_1"))
    ∷ (7, consumes (pos 5) (some (pos 25)) (some "ptk_2"))
    ∷ []

-- The first request is refused, since a new tray has 250 sheets in it; the last print uses more
-- than is left.
left_after : left_at 7 (run_changes script no_trays) ≡ ok (pos 0)
unfolding run_changes sheets_remaining ◌+ℤ◌ ◌-ℤ◌ neg
left_after = refl

run_changes-AreTrays_example : AreTrays (run_changes script no_trays)
run_changes-AreTrays_example = run_changes-AreTrays script no_trays tt

abbrev forty_left : Trays
forty_left = record {
  papers =
      record {
        kiosk_id = 7;
        capacity = pos 100;
        used = pos 60;
        warning_count = 2;
        last_warning_at = none;
        last_reminder_at = none;
      }
      ∷ [];
  log = [];
  audit = [];
}

forty_left-AreTrays : AreTrays forty_left
forty_left-AreTrays =
    (record { some_room = omega arith; not_below = omega arith; not_above = omega arith }, tt)

consume_paper_left_example :
    let (answer, s') = transaction (consume_paper 7 (pos 30) (some (pos 12)) none) forty_left in
    ((pos 12 <ℤ pos 0) × (answer ≡ err (bad_request sheets_negative)) × (s' ≡ forty_left))
    ⊎ ((before : ℤ) × (pos 0 ≤ℤ pos 12)
        × (left_at 7 forty_left ≡ ok before)
        × (answer ≡ ok (max_ℤ (pos 0) (before -ℤ pos 12)))
        × (left_at 7 s' ≡ answer)
        × (length s'.log ≡ 1))
consume_paper_left_example =
    consume_paper_left 7 (pos 30) (some (pos 12)) none forty_left forty_left-AreTrays

set_paper_left_example :
    (before : ℤ) × (left_at 7 forty_left ≡ ok before)
    × (pos 40 ≡ before)
    × (pos 0 ≤ℤ pos 40)
    × (left_at 7 (transaction (set_paper 7 (some (pos 50)) none none none) forty_left).1
        ≡ ok (pos 40))
unfolding set_paper ◌-ℤ◌
set_paper_left_example = set_paper_left 7 (some (pos 50)) none none none forty_left (pos 40) refl
