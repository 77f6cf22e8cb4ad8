-- ===== src/Identity/Visits/Redeemed.antt =====
-- A one-time link that was redeemed, through every later request.
use printvendo_backend.Prelude.{
  Bool-cases, not-true, Option-cases, find, any, All, find-hit, find-none, invalid_link,
  bad_request, ok, err, pure, keep_if_ok, transaction, ◌>>◌, Run-cases, err-ok, ℕ, ◌+◌, String, ◌≡◌,
  refl, sym, ap, ◌∙◌, subst, inl, inr, true, false, List, [], ◌∷◌, arith, str_eq,
}
use printvendo_backend.Identity.Models.{
  User, TokenPurpose, email_verification, People, Hashing, user_of,
}
use printvendo_backend.Identity.Sessions.{issue_tokens, rotate_refresh, revoke_refresh, revoke_all}
use printvendo_backend.Identity.Links.{has_link_hash, may_redeem, issue_link, redeem}
use printvendo_backend.Identity.Accounts.{
  set_active, register, create_guest, authenticate, start_reset, complete_reset, change_password,
  start_verification, verify_email,
}
use printvendo_backend.Identity.Visits.{
  Visit, registers, comes_as_guest, logs_in, refreshes, signs_out, signs_out_everywhere, switches,
  asks_reset, resets, changes_password, asks_verification, verifies, link_token, visit, run_visits,
}
use printvendo_backend.Identity.Visits.Dead.{differs}
use printvendo_backend.Identity.Visits.Kept.{answered-keeps, on_user-keeps}
use printvendo_backend.Identity.Visits.Spent.{
  is_open, IsSpent, spent_all, register-links, create_guest-links, authenticate-links,
  rotate_refresh-links, change_password-links, set_active-links, issue_link-IsSpent,
  start_reset-IsSpent, complete_reset-IsSpent, verify_email-IsSpent,
}

module _ (lib : Hashing) where
  module _ (h : String) where
    same-IsSpent :
        (s s' : People) → s'.one_time_tokens ≡ s.one_time_tokens → IsSpent h s → IsSpent h s'
    same-IsSpent s s' e d = ap (any (is_open h)) e ∙ d

    logs_in-IsSpent :
        (email password family fresh : String) (now : ℕ) (s : People)
        → IsSpent h s
        → IsSpent h (keep_if_ok s (visit lib (logs_in email password family fresh) now s)).1
    unfolding visit issue_tokens
    logs_in-IsSpent email password family fresh now s d =
        let kept = authenticate-links lib email password s in
        elim (Run-cases (authenticate lib email password s)) [
          | inr (e, c, r) ↦ rw r d
          | inl (user, c, r) ↦
              rw r (same-IsSpent s c (ap (λ z. z.1.one_time_tokens) (sym r) ∙ kept) d)
        ]

    visit-IsSpent :
        (v : Visit) (now : ℕ) (s : People)
        → differs lib h (link_token v) ≡ true
        → IsSpent h s
        → IsSpent h (keep_if_ok s (visit lib v now s)).1
    unfolding visit revoke_refresh revoke_all start_verification
    visit-IsSpent (registers email password name) now s f d =
        answered-keeps (IsSpent h) s (register lib email password name s) d (
          same-IsSpent s (register lib email password name s).1
            (register-links lib email password name s) d)
    visit-IsSpent (comes_as_guest email password) now s f d =
        answered-keeps (IsSpent h) s (create_guest lib email password s) d (
          same-IsSpent s (create_guest lib email password s).1
            (create_guest-links lib email password s) d)
    visit-IsSpent (logs_in email password family fresh) now s f d =
        logs_in-IsSpent email password family fresh now s d
    visit-IsSpent (refreshes token fresh) now s f d =
        answered-keeps (IsSpent h) s (rotate_refresh lib token fresh now s) d (
          same-IsSpent s (rotate_refresh lib token fresh now s).1
            (rotate_refresh-links lib token fresh now s) d)
    visit-IsSpent (signs_out token) now s f d = d
    visit-IsSpent (signs_out_everywhere user_id) now s f d = d
    visit-IsSpent (switches user_id on) now s f d =
        on_user-keeps (IsSpent h) (user_of s user_id) (λ user. set_active user on now >> pure tt) s
          d
          (λ user.
            answered-keeps (IsSpent h) s (set_active user on now s) d
              (same-IsSpent s (set_active user on now s).1 (set_active-links lib user on now s) d))
    visit-IsSpent (asks_reset email fresh) now s f d =
        answered-keeps (IsSpent h) s (start_reset lib email fresh now s) d
          (start_reset-IsSpent lib h email fresh now s (not-true (str_eq (lib.sha256 fresh) h) f) d)
    visit-IsSpent (resets token password) now s f d =
        answered-keeps (IsSpent h) s (complete_reset lib token password now s) d
          (complete_reset-IsSpent lib h token password now s d)
    visit-IsSpent (changes_password user_id current password) now s f d =
        on_user-keeps (IsSpent h) (user_of s user_id)
          (λ user. change_password lib user current password now >> pure tt) s d
          (λ user.
            answered-keeps (IsSpent h) s (change_password lib user current password now s) d (
              same-IsSpent s (change_password lib user current password now s).1
                (change_password-links lib user current password now s) d))
    visit-IsSpent (asks_verification user_id fresh) now s f d =
        on_user-keeps (IsSpent h) (user_of s user_id)
          (λ user. start_verification lib user fresh now >> pure tt) s d
          (λ user.
            answered-keeps (IsSpent h) s (issue_link lib user email_verification fresh now s) d (
              issue_link-IsSpent lib h user email_verification fresh now s
                (not-true (str_eq (lib.sha256 fresh) h) f) d))
    visit-IsSpent (verifies token) now s f d =
        answered-keeps (IsSpent h) s (verify_email lib token now s) d
          (verify_email-IsSpent lib h token now s d)

    run_visits-IsSpent :
        (vs : List (ℕ × Visit)) (now : ℕ) (s : People)
        → All (λ v. differs lib h (link_token v.1) ≡ true) vs
        → IsSpent h s
        → IsSpent h (run_visits lib vs now s)
    unfolding run_visits
    run_visits-IsSpent [] now s f d = d
    run_visits-IsSpent (v ∷ vs) now s f d =
        run_visits-IsSpent vs (now + v.0) (transaction (visit lib v.1 (now + v.0)) s).1 f.1
          (visit-IsSpent v.1 (now + v.0) s f.0 d)

  -- A link that was redeemed is used up.
  redeemed-IsSpent :
      (token : String) (purpose : TokenPurpose) (now : ℕ) (s s' : People) (user : User)
      → redeem lib token purpose now s ≡ (ok user, s')
      → IsSpent (lib.sha256 token) s'
  unfolding redeem
  redeemed-IsSpent token purpose now s s' user e =
      let h = lib.sha256 token in
      elim (Option-cases (find (has_link_hash h) s.one_time_tokens)) [
        | inl unknown ↦ err-ok (bad_request invalid_link) user s s' (rw unknown at e)
        | inr (row, found) ↦ elim (Bool-cases (may_redeem purpose now row)) [
          | inr stale ↦ err-ok (bad_request invalid_link) user s s' (rw (found, stale) at e)
          | inl good ↦ elim (Option-cases (user_of s row.user_id)) [
            | inl nobody ↦
                err-ok (bad_request invalid_link) user s s' (rw (found, good, nobody) at e)
            | inr (who, known) ↦ elim (Bool-cases who.is_active) [
              | inr off ↦
                  err-ok (bad_request invalid_link) user s s' (rw (found, good, known, off) at e)
              | inl on ↦
                  subst (IsSpent h) (ap (λ z. z.1) (rw (found, good, known, on) at e))
                    (spent_all h now s.one_time_tokens)
            ]
          ]
        ]
      ]

  redeem_refused :
      (token : String) (purpose : TokenPurpose) (now : ℕ) (s : People)
      → IsSpent (lib.sha256 token) s
      → (redeem lib token purpose now s) ≡ (err (bad_request invalid_link), s)
  unfolding redeem
  redeem_refused token purpose now s d =
      let h = lib.sha256 token in
      elim (Option-cases (find (has_link_hash h) s.one_time_tokens)) [
        | inl unknown ↦ rw unknown refl
        | inr (row, found) ↦
            let hit = find-hit (has_link_hash h) s.one_time_tokens row found in
            let used = find-none (is_open h) (has_link_hash h) row s.one_time_tokens found d in
            let stale : may_redeem purpose now row ≡ false = ground arith in rw (found, stale) refl
      ]

-- A link that was redeemed is never redeemed again, for any purpose: whatever anybody asks for
-- afterwards and however long, it is refused and nothing changes, provided that no link drawn later
-- has its hash.
pub redeem_once :
    (lib : Hashing) (token : String) (purpose again : TokenPurpose) (now later : ℕ) (s s' : People)
    (user : User) (vs : List (ℕ × Visit))
    → redeem lib token purpose now s ≡ (ok user, s')
    → All (λ v. differs lib (lib.sha256 token) (link_token v.1) ≡ true) vs
    → redeem lib token again later (run_visits lib vs now s')
      ≡ (err (bad_request invalid_link), run_visits lib vs now s')
redeem_once lib token purpose again now later s s' user vs e drawn =
    redeem_refused lib token again later (run_visits lib vs now s') (
      run_visits-IsSpent lib (lib.sha256 token) vs now s' drawn
        (redeemed-IsSpent lib token purpose now s s' user e))
