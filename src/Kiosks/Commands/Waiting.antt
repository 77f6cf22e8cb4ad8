-- ===== src/Kiosks/Commands/Waiting.antt =====
-- The requests of a kind that wait at a kiosk.
use printvendo_backend.Prelude.{
  ◌==◌, Bool-cases, Option-cases, length, filter, find, any, update_where, transaction, ℕ, ◌+◌, ◌≤◌,
  String, ◌≡◌, refl, sym, ◌∙◌, subst, inl, inr, Bool, true, false, Option, none, List, [], ◌∷◌,
  arith,
}
use printvendo_backend.Kiosks.Commands.{
  DeviceCommandKind, KioskDeviceCommand, Desk, is_open, same_kind, waiting, new_command,
  request_command, queued_at, taken_up, claim_commands, named_command, finished, report_command,
  Ask, requests, takes, reports, answer, run_desk,
}

abbrev pub count : (KioskDeviceCommand → Bool) → List KioskDeviceCommand → ℕ
count p cs = length (filter p cs)

-- At a time, no two requests of one kind at one kiosk may still be run.
abbrev pub IsSingle : ℕ → Desk → Type 0
IsSingle now d = (k : ℕ) (kind : DeviceCommandKind) → count (waiting k kind now) d.commands ≤ 1

count_later :
    (k : ℕ) (kind : DeviceCommandKind) (now later : ℕ) (cs : List KioskDeviceCommand)
    → now ≤ later
    → count (waiting k kind later) cs ≤ count (waiting k kind now) cs
count_later k kind now later [] h = omega arith
count_later k kind now later (c ∷ cs) h =
    let rest = count_later k kind now later cs h in
    elim (Bool-cases (waiting k kind later c)) [
      | inl hit ↦
          let still : waiting k kind now c ≡ true = ground arith in rw (hit, still) (omega arith)
      | inr miss ↦ rw miss (elim (Bool-cases (waiting k kind now c)) [
        | inl was ↦ rw was (omega arith)
        | inr was ↦ rw was rest
      ])
    ]

-- A row that is written does not come to wait.
count_update :
    (p q : KioskDeviceCommand → Bool) (f : KioskDeviceCommand → KioskDeviceCommand)
    (cs : List KioskDeviceCommand)
    → ((c : KioskDeviceCommand) → q c ≡ true → p (f c) ≡ true → p c ≡ true)
    → count p (update_where q f cs) ≤ count p cs
count_update p q f [] h = omega arith
count_update p q f (c ∷ cs) h =
    let rest = count_update p q f cs h in
    elim (Bool-cases (q c)) [
      | inr kept ↦
          rw kept
            (elim (Bool-cases (p c)) [ inl hit ↦ rw hit (omega arith) | inr miss ↦ rw miss rest ])
      | inl changed ↦ rw changed (elim (Bool-cases (p (f c))) [
        | inl hit ↦ rw (hit, h c changed hit) (omega arith)
        | inr miss ↦
            rw miss
              (elim (Bool-cases (p c)) [ inl was ↦ rw was (omega arith) | inr was ↦ rw was rest ])
      ])
    ]

find-none-count :
    (p : KioskDeviceCommand → Bool) (cs : List KioskDeviceCommand)
    → find p cs ≡ none
    → count p cs ≡ 0
find-none-count p [] h = refl
find-none-count p (c ∷ cs) h = elim (Bool-cases (p c)) [
  | inl hit ↦ cc (rw hit at h)
  | inr miss ↦ rw miss (find-none-count p cs (rw miss at h))
]

taken_up-waiting :
    (k : ℕ) (kind : DeviceCommandKind) (j now : ℕ) (c : KioskDeviceCommand)
    → queued_at j c ≡ true
    → waiting k kind now (taken_up now c) ≡ true
    → waiting k kind now c ≡ true
taken_up-waiting k kind j now c q h = ground arith

same_kind_eq : (a b : DeviceCommandKind) → same_kind a b ≡ true → a ≡ b
same_kind_eq a b h = ground arith

-- A new request is counted where nothing waited.
new-IsSingle :
    (k j : ℕ) (kind new_kind : DeviceCommandKind) (id : ℕ) (p : String) (by : Option ℕ) (now : ℕ)
    (cs : List KioskDeviceCommand)
    → find (waiting j new_kind now) cs ≡ none
    → count (waiting k kind now) cs ≤ 1
    → count (waiting k kind now) (new_command id p j new_kind by now ∷ cs) ≤ 1
new-IsSingle k j kind new_kind id p by now cs h one =
    elim (Bool-cases (waiting k kind now (new_command id p j new_kind by now))) [
      | inr miss ↦ rw miss one
      | inl mine ↦
          let at_k : j ≡ k = ground arith in
          let of_kind : new_kind ≡ kind = same_kind_eq new_kind kind (ground arith) in
          let free =
            subst (λ i. find (waiting i kind now) cs ≡ none) at_k
              (subst (λ z. find (waiting j z now) cs ≡ none) of_kind h) in
          rw (mine, find-none-count (waiting k kind now) cs free) (omega arith)
    ]

request-IsSingle :
    (j : ℕ) (kind : DeviceCommandKind) (p : String) (by : Option ℕ) (now : ℕ) (d : Desk)
    → IsSingle now d
    → IsSingle now (transaction (request_command j kind p by now) d).1
unfolding request_command
request-IsSingle j kind p by now d h k z = elim (Bool-cases (any (λ i. i == j) d.devices)) [
  | inr unknown ↦ rw unknown (h k z)
  | inl known ↦ elim (Option-cases (find (waiting j kind now) d.commands)) [
    | inr (c, e) ↦ rw (known, e) (h k z)
    | inl free ↦
        rw (known, free) (new-IsSingle k j z kind d.next_id p by now d.commands free (h k z))
  ]
]

claim-IsSingle :
    (j now : ℕ) (d : Desk) → IsSingle now d → IsSingle now (transaction (claim_commands j now) d).1
unfolding claim_commands
claim-IsSingle j now d h k z =
    let fewer =
      count_update (waiting k z now) (queued_at j) (taken_up now) d.commands
        (taken_up-waiting k z j now) in
    let before = h k z in omega arith

finished_idle :
    (ok_or_not : Bool) (message : Option String) (now k : ℕ) (z : DeviceCommandKind)
    (c : KioskDeviceCommand)
    → waiting k z now (finished ok_or_not message now c) ≡ false
finished_idle ok_or_not message now k z c = ground arith

report-IsSingle :
    (j : ℕ) (p : String) (ok_or_not : Bool) (message : Option String) (now : ℕ) (d : Desk)
    → IsSingle now d
    → IsSingle now (transaction (report_command j p ok_or_not message now) d).1
unfolding report_command
report-IsSingle j p ok_or_not message now d h k z =
    elim (Option-cases (find (named_command j p) d.commands)) [
      | inl unknown ↦ rw unknown (h k z)
      | inr (c, e) ↦ elim (Bool-cases (is_open c.state)) [
        | inr over ↦ rw (e, over) (h k z)
        | inl open_row ↦
            let idle = finished_idle ok_or_not message now k z c in
            let fewer =
              count_update (waiting k z now) (λ x. x.id == c.id)
                (λ _. finished ok_or_not message now c) d.commands
                (λ x _ bad. absurd (cc (sym idle ∙ bad))) in
            let before = h k z in rw (e, open_row) (omega arith)
      ]
    ]

answer-IsSingle : (now : ℕ) (a : Ask) (d : Desk) → IsSingle now d → IsSingle now (answer now a d)
unfolding answer
answer-IsSingle now (requests j kind p by) d h = request-IsSingle j kind p by now d h
answer-IsSingle now (takes j) d h = claim-IsSingle j now d h
answer-IsSingle now (reports j p ok_or_not message) d h =
    report-IsSingle j p ok_or_not message now d h

-- However often operators ask, and however their requests, the claims of the machines and their
-- reports follow one another in time, at most one request of a kind at a kiosk is ever open and in
-- time to be run, when that was so at the start.
pub run_desk-IsSingle :
    (now : ℕ) (as_asked : List (ℕ × Ask)) (d : Desk)
    → IsSingle now d
    → let (later, d') = run_desk now as_asked d in IsSingle later d'
unfolding run_desk
run_desk-IsSingle now [] d h = h
run_desk-IsSingle now ((pause, a) ∷ rest) d h =
    run_desk-IsSingle (now + pause) rest (answer (now + pause) a d) (
      answer-IsSingle (now + pause) a d (λ k z.
        let fewer = count_later k z now (now + pause) d.commands (omega arith) in
        let before = h k z in omega arith))
