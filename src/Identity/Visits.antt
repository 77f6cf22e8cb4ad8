-- ===== src/Identity/Visits.antt =====
-- What people ask of the identity modules, one request after another.
pub mod Kept
pub mod Dead
pub mod Reset
pub mod Spent
pub mod Redeemed
mod Examples
use printvendo_backend.Prelude.{
  no_such_user, not_found, err, Exec, pure, transaction, ◌>>=◌, ◌>>◌, modify, ℕ, ◌+◌, String, Bool,
  Option, none, some, List, [], ◌∷◌, ok,
}
use printvendo_backend.Identity.Models.{User, People, Hashing, user_of}
use printvendo_backend.Identity.Sessions.{issue_tokens, rotate_refresh, revoke_refresh, revoke_all}
use printvendo_backend.Identity.Accounts.{
  set_active, register, create_guest, authenticate, start_reset, complete_reset, change_password,
  start_verification, verify_email,
}

-- A request, with the tokens and passwords that are drawn for it.
pub data Visit : Type 0 where
  registers : String → String → Option String → Visit
  comes_as_guest : String → String → Visit
  logs_in : String → String → String → String → Visit
  refreshes : String → String → Visit
  signs_out : String → Visit
  signs_out_everywhere : ℕ → Visit
  switches : ℕ → Bool → Visit
  asks_reset : String → String → Visit
  resets : String → String → Visit
  changes_password : ℕ → String → String → Visit
  asks_verification : ℕ → String → Visit
  verifies : String → Visit

-- The token that is drawn: of a session, or of a link.
abbrev pub session_token : Visit → Option String
session_token (logs_in email password family fresh) = some fresh
session_token (refreshes token fresh) = some fresh
session_token _ = none

abbrev pub link_token : Visit → Option String
link_token (asks_reset email fresh) = some fresh
link_token (asks_verification user_id fresh) = some fresh
link_token _ = none

abbrev pub on_user : Option User → (User → Exec People (Unit {0})) → Exec People (Unit {0})
on_user none act s = (err (not_found no_such_user), s)
on_user (some user) act s = act user s

module _ (lib : Hashing) where
  unfoldable pub visit : Visit → ℕ → Exec People (Unit {0})
  unfolding register create_guest authenticate issue_tokens rotate_refresh revoke_refresh revoke_all
      set_active start_reset complete_reset change_password start_verification verify_email
  visit (registers email password full_name) now s =
      (register lib email password full_name >> pure tt) s
  visit (comes_as_guest email password) now s = (create_guest lib email password >> pure tt) s
  visit (logs_in email password family fresh) now s =
      (authenticate lib email password >>= λ user.
      issue_tokens lib user family fresh now >> pure tt)
        s
  visit (refreshes token fresh) now s = (rotate_refresh lib token fresh now >> pure tt) s
  visit (signs_out token) now s = (ok tt, revoke_refresh lib token now s)
  visit (signs_out_everywhere user_id) now s = (ok tt, revoke_all user_id now s)
  visit (switches user_id is_active) now s =
      on_user (user_of s user_id) (λ user. set_active user is_active now >> pure tt) s
  visit (asks_reset email fresh) now s = (start_reset lib email fresh now >> pure tt) s
  visit (resets token password) now s = (complete_reset lib token password now >> pure tt) s
  visit (changes_password user_id current password) now s =
      on_user (user_of s user_id) (λ user. change_password lib user current password now >> pure tt)
        s
  visit (asks_verification user_id fresh) now s =
      on_user (user_of s user_id) (λ user. start_verification lib user fresh now >> pure tt) s
  visit (verifies token) now s = (verify_email lib token now >> pure tt) s

  -- Each request comes some seconds after the one before, and in a transaction.
  unfoldable pub run_visits : List (ℕ × Visit) → ℕ → People → People
  unfolding visit
  run_visits [] now s = s
  run_visits (v ∷ vs) now s = run_visits vs (now + v.0) (transaction (visit v.1 (now + v.0)) s).1

-- When the last of them was made.
abbrev pub ended : List (ℕ × Visit) → ℕ → ℕ
ended [] now = now
ended (v ∷ vs) now = ended vs (now + v.0)
