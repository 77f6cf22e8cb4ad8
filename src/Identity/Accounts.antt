-- ===== src/Identity/Accounts.antt =====
-- app/modules/identity/passwords.py, guests.py, accounts.py, reset.py and verification.py: what
-- happens to an account. An address and a password that `secrets` draws come as arguments.
use printvendo_backend.Prelude.{
  ◌==◌, if◌then◌else◌, filter, find, any, wrong_password, same_password, email_taken,
  bad_credentials, bad_request, unauthorized, conflict, ok, err, Exec, pure, ◌>>=◌, ℕ, ◌+◌, String,
  Bool, true, false, not, ◌&&◌, Option, none, some, ◌∷◌, str_eq,
}
use printvendo_backend.Identity.Models.{
  Role, student, User, email_verification, password_reset, UserRole, People, Hashing, write_user,
  same_role,
}
use printvendo_backend.Identity.Sessions.{revoke_all}
use printvendo_backend.Identity.Links.{issue_link, redeem}

abbrev pub holds : ℕ → Role → UserRole → Bool
holds user_id role r = r.user_id == user_id && same_role r.role role

-- `grant_role`
unfoldable pub grant_role : ℕ → Role → People → People
grant_role user_id role s =
    if any (holds user_id role) s.roles
    then s
    else record s { roles = record { user_id = user_id; role = role } ∷ s.roles }

-- `revoke_role`
unfoldable pub revoke_role : ℕ → Role → People → People
revoke_role user_id role s = record s { roles = filter (λ r. not (holds user_id role r)) s.roles }

-- `set_active`
unfoldable pub set_active : User → Bool → ℕ → Exec People User
unfolding revoke_all
set_active user is_active now s =
    let changed = record user { is_active = is_active } in
    let written = write_user user.id (λ u. record u { is_active = is_active }) s in
    (ok changed, if is_active then written else revoke_all user.id now written)

module _ (lib : Hashing) where
  -- `email_exists`
  abbrev email_exists : People → String → Bool
  email_exists s email = any (λ u. str_eq (lib.lower u.email) (lib.lower (lib.strip email))) s.users

  -- `get_by_email`
  abbrev pub get_by_email : People → String → Option User
  get_by_email s email =
      find (λ u. str_eq (lib.lower u.email) (lib.lower (lib.strip email)) && u.is_active) s.users

  abbrev add_user : (ℕ → User) → Exec People User
  unfolding grant_role
  add_user row s = (
    ok (row s.next_user_id),
    grant_role s.next_user_id student
        (record s { users = row s.next_user_id ∷ s.users; next_user_id = s.next_user_id + 1 }),
  )

  abbrev student_row : String → String → Option String → Bool → ℕ → User
  student_row email password full_name is_guest id = record {
    id = id;
    email = email;
    hashed_password = lib.hash_password password;
    full_name = full_name;
    is_active = true;
    is_guest = is_guest;
    email_verified = false;
  }

  -- `register`
  unfoldable pub register : String → String → Option String → Exec People User
  unfolding grant_role
  register email password full_name s =
      if email_exists s (lib.strip email)
      then (err (conflict email_taken), s)
      else add_user (student_row (lib.strip email) password full_name false) s

  -- `create_guest`
  unfoldable pub create_guest : String → String → Exec People User
  unfolding grant_role
  create_guest email password = add_user (student_row email password (some "Guest") true)

  abbrev authenticate_as : Option User → String → Exec People User
  authenticate_as none password s = (err (unauthorized bad_credentials), s)
  authenticate_as (some user) password s =
      if not (lib.verify_password password user.hashed_password)
      then (err (unauthorized bad_credentials), s)
      else if not user.is_active
      then (err (unauthorized bad_credentials), s)
      else if lib.needs_rehash user.hashed_password
      then (
        ok (record user { hashed_password = lib.hash_password password }),
        write_user user.id (λ u. record u { hashed_password = lib.hash_password password }) s,
      )
      else (ok user, s)

  -- `authenticate`
  unfoldable pub authenticate : String → String → Exec People User
  authenticate email password s = authenticate_as (get_by_email s email) password s

  abbrev reset_for : Option User → String → ℕ → Exec People (Option String)
  unfolding issue_link
  reset_for none fresh now s = (ok none, s)
  reset_for (some user) fresh now s =
      if user.is_guest
      then (ok none, s)
      else (issue_link lib user password_reset fresh now >>= λ token. pure (some token)) s

  -- `start_reset`
  unfoldable pub start_reset : String → String → ℕ → Exec People (Option String)
  unfolding issue_link
  start_reset email fresh now s = reset_for (get_by_email s email) fresh now s

  -- A new password, and every session signed out.
  abbrev pub set_password : User → String → ℕ → Exec People User
  unfolding revoke_all
  set_password user password now s = (
    ok (record user { hashed_password = lib.hash_password password }),
    revoke_all user.id now
        (write_user user.id (λ u. record u { hashed_password = lib.hash_password password }) s),
  )

  -- `complete_reset`
  unfoldable pub complete_reset : String → String → ℕ → Exec People User
  unfolding redeem revoke_all
  complete_reset token password now =
      redeem lib token password_reset now >>= λ user. set_password user password now

  -- `change_password`
  unfoldable pub change_password : User → String → String → ℕ → Exec People User
  unfolding revoke_all
  change_password user current password now s =
      if not (lib.verify_password current user.hashed_password)
      then (err (unauthorized wrong_password), s)
      else if lib.verify_password password user.hashed_password
      then (err (bad_request same_password), s)
      else set_password user password now s

  -- `start_verification`
  unfoldable pub start_verification : User → String → ℕ → Exec People String
  unfolding issue_link
  start_verification user fresh now = issue_link lib user email_verification fresh now

  -- `verify_email`
  unfoldable pub verify_email : String → ℕ → Exec People User
  unfolding redeem
  verify_email token now = redeem lib token email_verification now >>= λ user s. (
    ok (record user { email_verified = true }),
    write_user user.id (λ u. record u { email_verified = true }) s,
  )
