-- ===== src/Identity/Sessions.antt =====
-- app/modules/identity/sessions.py: refresh tokens, issued, rotated and revoked.
-- A token that `secrets` draws comes as an argument. The access token is signed for the user's id.
use printvendo_backend.Prelude.{
  ltb, leb, ◌==◌, if◌then◌else◌, get_or, find, update_where, ℤ, pos, pos_part, neg_part, sub_ℕ,
  invalid_session, unauthorized, ok, err, Exec, ℕ, ◌+◌, ◌*◌, String, Bool, false, not, Option, none,
  some, ◌∷◌, str_eq,
}
use printvendo_backend.Identity.Models.{User, RefreshToken, People, Hashing, user_of}

-- The pair that a session gets: whose the access token is, and the refresh token.
pub record Tokens : Type 0 where
  pub access_for : ℕ
  pub refresh : String

-- REFRESH_LIFETIME and GRACE_SECONDS
abbrev pub refresh_lifetime : ℕ
refresh_lifetime = 30 * 86400

abbrev pub grace_seconds : ℕ
grace_seconds = 60

-- `datetime.now(UTC) - timedelta(seconds=GRACE_SECONDS + 1)`
abbrev pub dead_at : ℕ → ℤ
dead_at now = sub_ℕ now (grace_seconds + 1)

-- `now - row.revoked_at > timedelta(seconds=GRACE_SECONDS)`
abbrev pub past_grace : ℕ → Option ℤ → Bool
past_grace now none = false
past_grace now (some d) = ltb (grace_seconds + pos_part d) (now + neg_part d)

abbrev pub has_hash : String → RefreshToken → Bool
has_hash h r = str_eq r.token_hash h

abbrev pub revoke : ℤ → RefreshToken → RefreshToken
revoke moment r = record r { revoked_at = some moment }

-- `row.revoked_at = row.revoked_at or now`
abbrev pub rotated : ℕ → RefreshToken → RefreshToken
rotated now r = record r { revoked_at = some (get_or r.revoked_at (pos now)) }

module _ (lib : Hashing) where
  -- `_new_refresh`
  abbrev pub new_refresh : ℕ → String → String → ℕ → People → People
  new_refresh user_id family_id fresh now s = record s {
    refresh_tokens =
        record {
          user_id = user_id;
          token_hash = lib.sha256 fresh;
          family_id = family_id;
          expires_at = now + refresh_lifetime;
          revoked_at = none;
        }
        ∷ s.refresh_tokens;
  }

  -- `issue_tokens`
  unfoldable pub issue_tokens : User → String → String → ℕ → Exec People Tokens
  issue_tokens user family_id fresh now s = (
    ok (record { access_for = user.id; refresh = fresh }),
    new_refresh user.id family_id fresh now s,
  )

  -- `_lookup`
  abbrev pub lookup : People → String → Option RefreshToken
  lookup s token = find (has_hash (lib.sha256 token)) s.refresh_tokens

  -- `revoke_family`
  unfoldable pub revoke_family : String → ℕ → People → People
  revoke_family family_id now s = record s {
    refresh_tokens =
        update_where (λ r. str_eq r.family_id family_id) (revoke (dead_at now)) s.refresh_tokens;
  }

  abbrev pub for_user : RefreshToken → String → String → ℕ → Option User → Exec People Tokens
  for_user row token fresh now none s = (err (unauthorized invalid_session), s)
  for_user row token fresh now (some user) s =
      if not user.is_active then (err (unauthorized invalid_session), s) else (
        ok (record { access_for = user.id; refresh = fresh }),
        new_refresh user.id row.family_id fresh now (record s {
          refresh_tokens =
              update_where (has_hash (lib.sha256 token)) (rotated now) s.refresh_tokens;
        }),
      )

  abbrev pub rotate_row : Option RefreshToken → String → String → ℕ → Exec People Tokens
  unfolding revoke_family
  rotate_row none token fresh now s = (err (unauthorized invalid_session), s)
  rotate_row (some row) token fresh now s =
      if leb row.expires_at now
      then (err (unauthorized invalid_session), s)
      else if past_grace now row.revoked_at
      then (err (unauthorized invalid_session), revoke_family row.family_id now s)
      else for_user row token fresh now (user_of s row.user_id) s

  -- `rotate_refresh`
  unfoldable pub rotate_refresh : String → String → ℕ → Exec People Tokens
  unfolding revoke_family
  rotate_refresh token fresh now s = rotate_row (lookup s token) token fresh now s

  -- `revoke_refresh`: nothing happens to a token that is not known.
  unfoldable pub revoke_refresh : String → ℕ → People → People
  revoke_refresh token now s = record s {
    refresh_tokens =
        update_where (has_hash (lib.sha256 token)) (revoke (dead_at now)) s.refresh_tokens;
  }

-- `revoke_all`
unfoldable pub revoke_all : ℕ → ℕ → People → People
revoke_all user_id now s = record s {
  refresh_tokens = update_where (λ r. r.user_id == user_id) (revoke (dead_at now)) s.refresh_tokens;
}
