-- ===== src/Kiosks/Commands/Examples.antt =====
-- Tests and instances of the theorems on commands.
use printvendo_backend.Prelude.{length, ℕ, ◌≡◌, refl, none, List, [], ◌∷◌, arith}
use printvendo_backend.Kiosks.Commands.{
  restart_agent, Desk, request_command, claim_commands, Ask, requests, takes, answer, run_desk,
}
use printvendo_backend.Kiosks.Commands.Waiting.{IsSingle, run_desk-IsSingle}

abbrev quiet_desk : Desk
quiet_desk = record { devices = 7 ∷ []; commands = []; next_id = 1; woken = [] }

-- A button that is clicked twice, a claim, another click, and a last one after ten minutes.
abbrev clicks : List (ℕ × Ask)
clicks =
    (0, requests 7 restart_agent "cmd_1" none)
    ∷ (3, requests 7 restart_agent "cmd_2" none)
    ∷ (5, takes 7)
    ∷ (5, requests 7 restart_agent "cmd_3" none)
    ∷ (600, requests 7 restart_agent "cmd_4" none)
    ∷ []

clicks_rows : length (run_desk 1000 clicks quiet_desk).1.commands ≡ 2
unfolding run_desk answer request_command claim_commands
clicks_rows = refl

run_desk-IsSingle_example : let (later, d') = run_desk 1000 clicks quiet_desk in IsSingle later d'
run_desk-IsSingle_example = run_desk-IsSingle 1000 clicks quiet_desk (λ k kind. omega arith)
