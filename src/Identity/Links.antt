-- ===== src/Identity/Links.antt =====
-- app/modules/identity/tokens.py: one-time links, issued, redeemed and superseded.
use printvendo_backend.Prelude.{
  ltb, ◌==◌, if◌then◌else◌, is_some, find, update_where, invalid_link, bad_request, ok, err, Exec,
  ℕ, ◌+◌, ◌*◌, String, Bool, not, ◌&&◌, Option, none, some, ◌∷◌, str_eq,
}
use printvendo_backend.Identity.Models.{
  User, TokenPurpose, email_verification, password_reset, OneTimeToken, People, Hashing, user_of,
  same_purpose,
}

-- LIFETIMES
abbrev pub lifetime : TokenPurpose → ℕ
lifetime email_verification = 24 * 3600
lifetime password_reset = 3600

abbrev pub has_link_hash : String → OneTimeToken → Bool
has_link_hash h t = str_eq t.token_hash h

-- The links that a new one supersedes.
abbrev pub is_superseded : ℕ → TokenPurpose → OneTimeToken → Bool
is_superseded user_id purpose t =
    t.user_id == user_id && (same_purpose t.purpose purpose && not (is_some t.used_at))

abbrev pub use_up : ℕ → OneTimeToken → OneTimeToken
use_up now t = record t { used_at = some now }

-- Whether a row is one that may be redeemed.
abbrev pub may_redeem : TokenPurpose → ℕ → OneTimeToken → Bool
may_redeem purpose now t =
    same_purpose t.purpose purpose && (not (is_some t.used_at) && ltb now t.expires_at)

module _ (lib : Hashing) where
  -- `issue`
  unfoldable pub issue_link : User → TokenPurpose → String → ℕ → Exec People String
  issue_link user purpose fresh now s = (
    ok fresh,
    record s {
      one_time_tokens =
          record {
            user_id = user.id;
            purpose = purpose;
            token_hash = lib.sha256 fresh;
            expires_at = now + lifetime purpose;
            used_at = none;
          }
          ∷ update_where (is_superseded user.id purpose) (use_up now) s.one_time_tokens;
    },
  )

  abbrev pub redeem_for : String → ℕ → Option User → Exec People User
  redeem_for token now none s = (err (bad_request invalid_link), s)
  redeem_for token now (some user) s =
      if not user.is_active then (err (bad_request invalid_link), s) else (
        ok user,
        record s {
          one_time_tokens =
              update_where (has_link_hash (lib.sha256 token)) (use_up now) s.one_time_tokens;
        },
      )

  abbrev pub redeem_row : Option OneTimeToken → String → TokenPurpose → ℕ → Exec People User
  redeem_row none token purpose now s = (err (bad_request invalid_link), s)
  redeem_row (some t) token purpose now s =
      if not (may_redeem purpose now t)
      then (err (bad_request invalid_link), s)
      else redeem_for token now (user_of s t.user_id) s

  -- `redeem`: the row of a hash, which is unique.
  unfoldable pub redeem : String → TokenPurpose → ℕ → Exec People User
  redeem token purpose now s =
      redeem_row (find (has_link_hash (lib.sha256 token)) s.one_time_tokens) token purpose now s
