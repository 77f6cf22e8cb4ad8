-- ===== src/Identity/Visits/Dead.antt =====
-- Refresh tokens that were revoked without grace.
use printvendo_backend.Prelude.{
  leb, ◌==◌, Bool-cases, Option-cases, any, update_where, find-hit, none-update_where, find-none,
  none-written, invalid_session, unauthorized, err, ℕ, ◌≤◌, String, ◌≡◌, refl, inl, inr, Bool, true,
  false, not, ◌&&◌, Option, none, some, List, arith, str_eq,
}
use printvendo_backend.Identity.Models.{User, TokenPurpose, RefreshToken, People, Hashing, user_of}
use printvendo_backend.Identity.Sessions.{
  dead_at, past_grace, has_hash, revoke, rotated, new_refresh, lookup, revoke_family,
  rotate_refresh, revoke_all,
}
use printvendo_backend.Identity.Links.{issue_link, redeem}
use printvendo_backend.Identity.Accounts.{
  grant_role, set_active, register, create_guest, authenticate, start_reset, set_password,
}

-- A row of a hash that is not revoked, or in its grace still.
abbrev pub is_live : String → ℕ → RefreshToken → Bool
is_live h now r = has_hash h r && not (past_grace now r.revoked_at)

abbrev pub IsDead : String → ℕ → People → Type 0
IsDead h now s = any (is_live h now) s.refresh_tokens ≡ false

-- A token that was drawn has another hash.
abbrev pub differs : Hashing → String → Option String → Bool
differs lib h none = true
differs lib h (some fresh) = not (str_eq (lib.sha256 fresh) h)

pub revoked_dead :
    (h : String) (now : ℕ) (r : RefreshToken) → is_live h now (revoke (dead_at now) r) ≡ false
revoked_dead h now r = ground arith

rotated_dead :
    (h : String) (now : ℕ) (r : RefreshToken)
    → is_live h now r ≡ false
    → is_live h now (rotated now r) ≡ false
rotated_dead h now r e = ground arith

pub still_dead :
    (h : String) (now later : ℕ) (r : RefreshToken)
    → now ≤ later
    → is_live h now r ≡ false
    → is_live h later r ≡ false
still_dead h now later r l e = ground arith

module _ (lib : Hashing) where
  -- The requests that touch no session.
  pub register-tokens :
      (email password : String) (name : Option String) (s : People)
      → (register lib email password name s).1.refresh_tokens ≡ s.refresh_tokens
  unfolding register grant_role
  register-tokens email password name s = ground arith

  pub create_guest-tokens :
      (email password : String) (s : People)
      → (create_guest lib email password s).1.refresh_tokens ≡ s.refresh_tokens
  unfolding create_guest grant_role
  create_guest-tokens email password s = ground arith

  pub authenticate-tokens :
      (email password : String) (s : People)
      → (authenticate lib email password s).1.refresh_tokens ≡ s.refresh_tokens
  unfolding authenticate
  authenticate-tokens email password s = ground arith

  pub start_reset-tokens :
      (email fresh : String) (now : ℕ) (s : People)
      → (start_reset lib email fresh now s).1.refresh_tokens ≡ s.refresh_tokens
  unfolding start_reset issue_link
  start_reset-tokens email fresh now s = ground arith

  pub redeem-tokens :
      (token : String) (purpose : TokenPurpose) (now : ℕ) (s : People)
      → (redeem lib token purpose now s).1.refresh_tokens ≡ s.refresh_tokens
  unfolding redeem
  redeem-tokens token purpose now s = ground arith

  module _ (h : String) (now : ℕ) where
    pub revoke-IsDead :
        (q : RefreshToken → Bool) (rows : List RefreshToken)
        → any (is_live h now) rows ≡ false
        → any (is_live h now) (update_where q (revoke (dead_at now)) rows) ≡ false
    revoke-IsDead q rows d =
        none-update_where (is_live h now) q (revoke (dead_at now)) rows
          (λ r _. revoked_dead h now r) d

    pub new_refresh-IsDead :
        (user_id : ℕ) (family fresh : String) (s : People)
        → str_eq (lib.sha256 fresh) h ≡ false
        → IsDead h now s
        → IsDead h now (new_refresh lib user_id family fresh now s)
    new_refresh-IsDead user_id family fresh s other d = rw other d

    pub rotate_refresh-IsDead :
        (token fresh : String) (s : People)
        → str_eq (lib.sha256 fresh) h ≡ false
        → IsDead h now s
        → IsDead h now (rotate_refresh lib token fresh now s).1
    unfolding rotate_refresh revoke_family
    rotate_refresh-IsDead token fresh s other d = elim (Option-cases (lookup lib s token)) [
      | inl unknown ↦ rw unknown d
      | inr (row, found) ↦ elim (Bool-cases (leb row.expires_at now)) [
        | inl expired ↦ rw (found, expired) d
        | inr fresh_row ↦ elim (Bool-cases (past_grace now row.revoked_at)) [
          | inl replay ↦
              rw (found, fresh_row, replay)
                (revoke-IsDead (λ r. str_eq r.family_id row.family_id) s.refresh_tokens d)
          | inr live ↦ elim (Option-cases (user_of s row.user_id)) [
            | inl nobody ↦ rw (found, fresh_row, live, nobody) d
            | inr (user, known) ↦ elim (Bool-cases user.is_active) [
              | inr off ↦ rw (found, fresh_row, live, known, off) d
              | inl on ↦
                  rw (found, fresh_row, live, known, on, other)
                    (none-update_where (is_live h now) (has_hash (lib.sha256 token)) (rotated now)
                      s.refresh_tokens (rotated_dead h now) d)
            ]
          ]
        ]
      ]
    ]

    pub set_password-IsDead :
        (user : User) (password : String) (s : People)
        → IsDead h now s
        → IsDead h now (set_password lib user password now s).1
    unfolding revoke_all
    set_password-IsDead user password s d =
        revoke-IsDead (λ r. r.user_id == user.id) s.refresh_tokens d

    pub set_active-IsDead :
        (user : User) (on : Bool) (s : People)
        → IsDead h now s
        → IsDead h now (set_active user on now s).1
    unfolding set_active revoke_all
    set_active-IsDead user true s d = d
    set_active-IsDead user false s d = revoke-IsDead (λ r. r.user_id == user.id) s.refresh_tokens d

    -- A token whose rows are not live is refused, known or not.
    pub rotate_refused :
        (token fresh : String) (s : People)
        → IsDead (lib.sha256 token) now s
        → (rotate_refresh lib token fresh now s).0 ≡ err (unauthorized invalid_session)
    unfolding rotate_refresh
    rotate_refused token fresh s d = elim (Option-cases (lookup lib s token)) [
      | inl unknown ↦ rw unknown refl
      | inr (row, found) ↦
          let hit = find-hit (has_hash (lib.sha256 token)) s.refresh_tokens row found in
          let dead =
            find-none (is_live (lib.sha256 token) now) (has_hash (lib.sha256 token)) row
              s.refresh_tokens found d in
          let replay : past_grace now row.revoked_at ≡ true = ground arith in
          elim (Bool-cases (leb row.expires_at now)) [
            | inl expired ↦ rw (found, expired) refl
            | inr fresh_row ↦ rw (found, fresh_row, replay) refl
          ]
    ]

    pub revoke_all-IsDead :
        (user_id : ℕ) (rows : List RefreshToken)
        → any (λ r. has_hash h r && not (r.user_id == user_id)) rows ≡ false
        → any (is_live h now) (update_where (λ r. r.user_id == user_id) (revoke (dead_at now)) rows)
          ≡ false
    revoke_all-IsDead user_id rows own =
        none-written (is_live h now) (λ r. has_hash h r && not (r.user_id == user_id))
          (λ r. r.user_id == user_id) (revoke (dead_at now)) rows (λ r _. revoked_dead h now r)
          (λ r other mine. ground arith) own
