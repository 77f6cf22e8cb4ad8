-- ===== src/RateLimit/Examples.antt =====
-- Tests and instances of the theorems on rate limits.
use printvendo_backend.Prelude.{ℕ, ◌+◌, ◌*◌, ◌≤◌, ◌≡◌, refl, false, List, [], ◌∷◌, map, arith}
use printvendo_backend.RateLimit.{let_through, Bucket, Counted, Hit, hit, run_hits, decide}
use printvendo_backend.RateLimit.Windows.{AreKept}
use printvendo_backend.RateLimit.Allowance.{let_in, hits_within_limit}
use printvendo_backend.RateLimit.History.{decide_by_history, decide-refines}
use printvendo_backend.RateLimit.Retry.{retry_succeeds}

-- Two logins a minute.
abbrev login : Hit
login = record { key = "login:1.2.3.4"; limit = 2; window_seconds = 60 }

abbrev logins : List (ℕ × Hit)
logins = (1000, login) ∷ (1000, login) ∷ (1000, login) ∷ (58000, login) ∷ []

abbrev first_minute : Bucket
first_minute = record { key = "login:1.2.3.4"; window_seconds = 60; index = 0 }

-- The third is refused for 57 seconds; the fourth comes in the next minute.
four_decisions :
    map (λ d. d.2) (decide logins 0 [])
    ≡ let_through ∷ let_through ∷ record { allowed = false; retry_after = 57 } ∷ let_through ∷ []
unfolding decide hit
four_decisions = refl

hits_within_limit_example : let_in first_minute 2 (decide logins 0 []) ≤ 2
hits_within_limit_example =
    hits_within_limit logins 0 first_minute 2
      (omega arith, (omega arith, (omega arith, (omega arith, tt))))

abbrev used_up : List Counted
used_up = record { bucket = first_minute; hits = 2; ends_at = 60000 } ∷ []

used_up-AreKept : AreKept 3000 used_up
used_up-AreKept = (record { ends_then = refl; started = omega arith }, tt)

-- Somebody else logs in meanwhile.
abbrev elsewhere : List (ℕ × Hit)
elsewhere = (5000, record login { key = "login:5.6.7.8" }) ∷ []

retry_succeeds_example :
    (1 ≤ 57)
    × (57 ≤ 60)
    × ((hit login (3000 + 1000 * 57) (run_hits elsewhere 3000 (hit login 3000 used_up).1)).0
        ≡ let_through)
unfolding hit
retry_succeeds_example =
    retry_succeeds login 3000 used_up elsewhere (omega arith) (omega arith) used_up-AreKept refl
      (omega arith, tt) (refl, tt) (omega arith)

decide-refines_example : decide logins 0 [] ≡ decide_by_history logins 0 []
decide-refines_example =
    decide-refines logins 0 (omega arith, (omega arith, (omega arith, (omega arith, tt))))
