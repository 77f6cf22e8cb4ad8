-- ===== src/Identity/Models.antt =====
-- app/modules/identity/models.py and roles.py: accounts, roles, refresh tokens and one-time links.
-- Times are seconds. Hashing, the checks of passwords and the folding of addresses are parameters.
use printvendo_backend.Prelude.{
  ◌==◌, find, update_where, ℤ, ℕ, String, Bool, true, false, Option, List,
}

pub data Role : Type 0 where
  admin owner refiller student : Role

pub record User : Type 0 where
  pub id : ℕ
  pub email : String
  pub hashed_password : String
  pub full_name : Option String
  pub is_active : Bool
  pub is_guest : Bool
  pub email_verified : Bool

pub data TokenPurpose : Type 0 where
  email_verification password_reset : TokenPurpose

pub record OneTimeToken : Type 0 where
  pub user_id : ℕ
  pub purpose : TokenPurpose
  pub token_hash : String
  pub expires_at : ℕ
  pub used_at : Option ℕ

-- `revoked_at` may be a moment before the clock's zero.
pub record RefreshToken : Type 0 where
  pub user_id : ℕ
  pub token_hash : String
  pub family_id : String
  pub expires_at : ℕ
  pub revoked_at : Option ℤ

pub record UserRole : Type 0 where
  pub user_id : ℕ
  pub role : Role

pub record People : Type 0 where
  pub users : List User
  pub roles : List UserRole
  pub refresh_tokens : List RefreshToken
  pub one_time_tokens : List OneTimeToken
  pub next_user_id : ℕ

-- What the standard library and passlib do.
pub record Hashing : Type 0 where
  pub sha256 : String → String
  pub hash_password : String → String
  pub verify_password : String → String → Bool
  pub needs_rehash : String → Bool
  pub lower : String → String
  pub strip : String → String

abbrev pub is_user : ℕ → User → Bool
is_user i u = u.id == i

-- `db.get(User, id)`
abbrev pub user_of : People → ℕ → Option User
user_of s i = find (is_user i) s.users

abbrev pub write_user : ℕ → (User → User) → People → People
write_user i change s = record s { users = update_where (is_user i) change s.users }

abbrev pub same_purpose : TokenPurpose → TokenPurpose → Bool
same_purpose email_verification email_verification = true
same_purpose password_reset password_reset = true
same_purpose _ _ = false

abbrev pub same_role : Role → Role → Bool
same_role admin admin = true
same_role owner owner = true
same_role refiller refiller = true
same_role student student = true
same_role _ _ = false
