-- ===== src/Identity/Visits/Reset.antt =====
-- Signing somebody out for good: through every later request, and after a password reset.
use printvendo_backend.Prelude.{
  ◌==◌, Bool-cases, not-true, any, All, none-fewer, invalid_session, unauthorized, Result, ok, err,
  ok-injective, pure, keep_if_ok, transaction, ◌>>◌, Run-cases, err-ok, ℕ, ◌+◌, String, ◌≡◌, sym,
  ap, ◌∙◌, subst, inl, inr, true, false, not, ◌&&◌, List, [], ◌∷◌, arith, str_eq,
}
use printvendo_backend.Identity.Models.{
  User, email_verification, password_reset, People, Hashing, user_of,
}
use printvendo_backend.Identity.Sessions.{
  has_hash, issue_tokens, rotate_refresh, revoke_refresh, revoke_all,
}
use printvendo_backend.Identity.Links.{issue_link, redeem}
use printvendo_backend.Identity.Accounts.{
  set_active, register, create_guest, authenticate, start_reset, complete_reset, change_password,
  start_verification, verify_email,
}
use printvendo_backend.Identity.Visits.{
  Visit, registers, comes_as_guest, logs_in, refreshes, signs_out, signs_out_everywhere, switches,
  asks_reset, resets, changes_password, asks_verification, verifies, session_token, visit,
  run_visits, ended,
}
use printvendo_backend.Identity.Visits.Kept.{answered-keeps, on_user-keeps}
use printvendo_backend.Identity.Visits.Dead.{
  is_live, IsDead, differs, still_dead, register-tokens, create_guest-tokens, authenticate-tokens,
  start_reset-tokens, redeem-tokens, revoke-IsDead, new_refresh-IsDead, rotate_refresh-IsDead,
  set_password-IsDead, set_active-IsDead, rotate_refused, revoke_all-IsDead,
}

module _ (lib : Hashing) (h : String) where
  -- The state that a request leaves when its transaction ends.
  abbrev Dies : ℕ → People → Result (Unit {0}) × People → Type 0
  Dies now s r = IsDead h now (keep_if_ok s r).1

  same-IsDead :
      (now : ℕ) (s s' : People)
      → s'.refresh_tokens ≡ s.refresh_tokens
      → IsDead h now s
      → IsDead h now s'
  same-IsDead now s s' e d = ap (any (is_live h now)) e ∙ d

  logs_in-Dies :
      (email password family fresh : String) (now : ℕ) (s : People)
      → str_eq (lib.sha256 fresh) h ≡ false
      → IsDead h now s
      → Dies now s (visit lib (logs_in email password family fresh) now s)
  unfolding visit issue_tokens
  logs_in-Dies email password family fresh now s other d =
      let kept = authenticate-tokens lib email password s in
      elim (Run-cases (authenticate lib email password s)) [
        | inr (e, s', r) ↦ rw r d
        | inl (user, s', r) ↦
            let same : s'.refresh_tokens ≡ s.refresh_tokens =
              ap (λ z. z.1.refresh_tokens) (sym r) ∙ kept in
            rw r (
              new_refresh-IsDead lib h now user.id family fresh s' other
                (same-IsDead now s s' same d))
      ]

  complete_reset-IsDead :
      (token password : String) (now : ℕ) (s : People)
      → IsDead h now s
      → IsDead h now (complete_reset lib token password now s).1
  unfolding complete_reset
  complete_reset-IsDead token password now s d =
      let kept = redeem-tokens lib token password_reset now s in
      elim (Run-cases (redeem lib token password_reset now s)) [
        | inr (e, s', r) ↦
            rw r (same-IsDead now s s' (ap (λ z. z.1.refresh_tokens) (sym r) ∙ kept) d)
        | inl (user, s', r) ↦ rw r (
            set_password-IsDead lib h now user password s'
              (same-IsDead now s s' (ap (λ z. z.1.refresh_tokens) (sym r) ∙ kept) d))
      ]

  verify_email-IsDead :
      (token : String) (now : ℕ) (s : People)
      → IsDead h now s
      → IsDead h now (verify_email lib token now s).1
  unfolding verify_email
  verify_email-IsDead token now s d =
      let kept = redeem-tokens lib token email_verification now s in
      elim (Run-cases (redeem lib token email_verification now s)) [
        | inr (e, s', r) ↦
            rw r (same-IsDead now s s' (ap (λ z. z.1.refresh_tokens) (sym r) ∙ kept) d)
        | inl (user, s', r) ↦
            rw r (same-IsDead now s s' (ap (λ z. z.1.refresh_tokens) (sym r) ∙ kept) d)
      ]

  change_password-IsDead :
      (user : User) (current password : String) (now : ℕ) (s : People)
      → IsDead h now s
      → IsDead h now (change_password lib user current password now s).1
  unfolding change_password
  change_password-IsDead user current password now s d =
      elim (Bool-cases (lib.verify_password current user.hashed_password)) [
        | inr wrong ↦ rw wrong d
        | inl right ↦ elim (Bool-cases (lib.verify_password password user.hashed_password)) [
          | inl same ↦ rw (right, same) d
          | inr new ↦ rw (right, new) (set_password-IsDead lib h now user password s d)
        ]
      ]

  visit-Dies :
      (v : Visit) (now : ℕ) (s : People)
      → differs lib h (session_token v) ≡ true
      → IsDead h now s
      → Dies now s (visit lib v now s)
  unfolding visit revoke_refresh revoke_all start_verification issue_link
  visit-Dies (registers email password name) now s f d =
      answered-keeps (IsDead h now) s (register lib email password name s) d (
        same-IsDead now s (register lib email password name s).1
          (register-tokens lib email password name s) d)
  visit-Dies (comes_as_guest email password) now s f d =
      answered-keeps (IsDead h now) s (create_guest lib email password s) d (
        same-IsDead now s (create_guest lib email password s).1
          (create_guest-tokens lib email password s) d)
  visit-Dies (logs_in email password family fresh) now s f d =
      logs_in-Dies email password family fresh now s (not-true (str_eq (lib.sha256 fresh) h) f) d
  visit-Dies (refreshes token fresh) now s f d =
      answered-keeps (IsDead h now) s (rotate_refresh lib token fresh now s) d
        (rotate_refresh-IsDead lib h now token fresh s (not-true (str_eq (lib.sha256 fresh) h) f) d)
  visit-Dies (signs_out token) now s f d =
      revoke-IsDead lib h now (has_hash (lib.sha256 token)) s.refresh_tokens d
  visit-Dies (signs_out_everywhere user_id) now s f d =
      revoke-IsDead lib h now (λ r. r.user_id == user_id) s.refresh_tokens d
  visit-Dies (switches user_id on) now s f d =
      on_user-keeps (IsDead h now) (user_of s user_id) (λ user. set_active user on now >> pure tt) s
        d
        (λ user.
          answered-keeps (IsDead h now) s (set_active user on now s) d
            (set_active-IsDead lib h now user on s d))
  visit-Dies (asks_reset email fresh) now s f d =
      answered-keeps (IsDead h now) s (start_reset lib email fresh now s) d (
        same-IsDead now s (start_reset lib email fresh now s).1
          (start_reset-tokens lib email fresh now s) d)
  visit-Dies (resets token password) now s f d =
      answered-keeps (IsDead h now) s (complete_reset lib token password now s) d
        (complete_reset-IsDead token password now s d)
  visit-Dies (changes_password user_id current password) now s f d =
      on_user-keeps (IsDead h now) (user_of s user_id)
        (λ user. change_password lib user current password now >> pure tt) s d
        (λ user.
          answered-keeps (IsDead h now) s (change_password lib user current password now s) d
            (change_password-IsDead user current password now s d))
  visit-Dies (asks_verification user_id fresh) now s f d =
      on_user-keeps (IsDead h now) (user_of s user_id)
        (λ user. start_verification lib user fresh now >> pure tt) s d (λ user. d)
  visit-Dies (verifies token) now s f d =
      answered-keeps (IsDead h now) s (verify_email lib token now s) d
        (verify_email-IsDead token now s d)

  run_visits-IsDead :
      (vs : List (ℕ × Visit)) (now : ℕ) (s : People)
      → All (λ v. differs lib h (session_token v.1) ≡ true) vs
      → IsDead h now s
      → IsDead h (ended vs now) (run_visits lib vs now s)
  unfolding run_visits
  run_visits-IsDead [] now s f d = d
  run_visits-IsDead (v ∷ vs) now s f d =
      let later =
        none-fewer (is_live h now) (is_live h (now + v.0)) s.refresh_tokens
          (λ r. still_dead h now (now + v.0) r (omega arith)) d in
      run_visits-IsDead vs (now + v.0) (transaction (visit lib v.1 (now + v.0)) s).1 f.1
        (visit-Dies v.1 (now + v.0) s f.0 later)

  -- The reset itself: every token of the user is dead when it is done.
  reset-IsDead :
      (token password : String) (now : ℕ) (s s' : People) (user : User)
      → complete_reset lib token password now s ≡ (ok user, s')
      → any (λ r. has_hash h r && not (r.user_id == user.id)) s.refresh_tokens ≡ false
      → IsDead h now s'
  unfolding complete_reset revoke_all
  reset-IsDead token password now s s' user e own =
      let kept = redeem-tokens lib token password_reset now s in
      elim (Run-cases (redeem lib token password_reset now s)) [
        | inr (bad, c, r) ↦ err-ok bad user c s' (rw r at e)
        | inl (who, c, r) ↦
            let run = rw r at e in
            let same_id : who.id ≡ user.id =
              ap (λ z. z.id)
                (ok-injective (record who { hashed_password = lib.hash_password password }) user
                  (ap (λ z. z.0) run)) in
            let same : c.refresh_tokens ≡ s.refresh_tokens =
              ap (λ z. z.1.refresh_tokens) (sym r) ∙ kept in
            let mine : any (λ r. has_hash h r && not (r.user_id == who.id)) c.refresh_tokens
                ≡ false =
              rw (same, same_id) own in
            subst (IsDead h now) (ap (λ z. z.1) run)
              (revoke_all-IsDead lib h now who.id c.refresh_tokens mine)
      ]

-- Once a password reset is complete, no refresh token that the user had before is ever exchanged
-- again: whatever anybody asks for afterwards, however long, and the user's own new sessions
-- included, exchanging it is refused; provided that no other user's token, and no token drawn
-- later, has its hash.
pub complete_reset-signs_out :
    (lib : Hashing) (link password : String) (now : ℕ) (s s' : People) (user : User)
    (token fresh : String) (vs : List (ℕ × Visit)) (wait : ℕ)
    → complete_reset lib link password now s ≡ (ok user, s')
    → any (λ r. has_hash (lib.sha256 token) r && not (r.user_id == user.id)) s.refresh_tokens
      ≡ false
    → All (λ v. differs lib (lib.sha256 token) (session_token v.1) ≡ true) vs
    → (rotate_refresh lib token fresh (ended vs now + wait) (run_visits lib vs now s')).0
      ≡ err (unauthorized invalid_session)
complete_reset-signs_out lib link password now s s' user token fresh vs wait e own drawn =
    let h = lib.sha256 token in
    let later = ended vs now + wait in
    let after = run_visits lib vs now s' in
    let dead =
      run_visits-IsDead lib h vs now s' drawn
        (reset-IsDead lib h link password now s s' user e own) in
    rotate_refused lib h later token fresh after (
      none-fewer (is_live h (ended vs now)) (is_live h later) after.refresh_tokens
        (λ r. still_dead h (ended vs now) later r (omega arith)) dead)
