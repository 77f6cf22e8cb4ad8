-- ===== src/Identity/Visits/Spent.antt =====
-- One-time links that were used.
use printvendo_backend.Prelude.{
  Bool-cases, Option-cases, is_some, find, any, update_where, none-update_where, Run-cases, ℕ,
  String, ◌≡◌, refl, subst, inl, inr, Bool, false, not, ◌&&◌, Option, List, [], ◌∷◌, arith, str_eq,
}
use printvendo_backend.Identity.Models.{
  User, TokenPurpose, email_verification, password_reset, OneTimeToken, People, Hashing, user_of,
}
use printvendo_backend.Identity.Sessions.{revoke_family, rotate_refresh, revoke_all}
use printvendo_backend.Identity.Links.{
  has_link_hash, is_superseded, use_up, may_redeem, issue_link, redeem,
}
use printvendo_backend.Identity.Accounts.{
  grant_role, set_active, get_by_email, register, create_guest, authenticate, start_reset,
  complete_reset, change_password, verify_email,
}

-- A row of a hash that has not been used.
abbrev pub is_open : String → OneTimeToken → Bool
is_open h t = has_link_hash h t && not (is_some t.used_at)

abbrev pub IsSpent : String → People → Type 0
IsSpent h s = any (is_open h) s.one_time_tokens ≡ false

pub spent_all :
    (h : String) (now : ℕ) (rows : List OneTimeToken)
    → any (is_open h) (update_where (has_link_hash h) (use_up now) rows) ≡ false
spent_all h now [] = refl
spent_all h now (t ∷ rows) = elim (Bool-cases (has_link_hash h t)) [
  | inl hit ↦ rw (hit, hit) (spent_all h now rows)
  | inr miss ↦ rw (miss, miss) (spent_all h now rows)
]

module _ (lib : Hashing) where
  pub register-links :
      (email password : String) (name : Option String) (s : People)
      → (register lib email password name s).1.one_time_tokens ≡ s.one_time_tokens
  unfolding register grant_role
  register-links email password name s = ground arith

  pub create_guest-links :
      (email password : String) (s : People)
      → (create_guest lib email password s).1.one_time_tokens ≡ s.one_time_tokens
  unfolding create_guest grant_role
  create_guest-links email password s = ground arith

  pub authenticate-links :
      (email password : String) (s : People)
      → (authenticate lib email password s).1.one_time_tokens ≡ s.one_time_tokens
  unfolding authenticate
  authenticate-links email password s = ground arith

  pub rotate_refresh-links :
      (token fresh : String) (now : ℕ) (s : People)
      → (rotate_refresh lib token fresh now s).1.one_time_tokens ≡ s.one_time_tokens
  unfolding rotate_refresh revoke_family
  rotate_refresh-links token fresh now s = ground arith

  pub change_password-links :
      (user : User) (current password : String) (now : ℕ) (s : People)
      → (change_password lib user current password now s).1.one_time_tokens ≡ s.one_time_tokens
  unfolding change_password revoke_all
  change_password-links user current password now s = ground arith

  pub set_active-links :
      (user : User) (on : Bool) (now : ℕ) (s : People)
      → (set_active user on now s).1.one_time_tokens ≡ s.one_time_tokens
  unfolding set_active revoke_all
  set_active-links user on now s = ground arith

  module _ (h : String) where
    use_up-IsSpent :
        (q : OneTimeToken → Bool) (now : ℕ) (rows : List OneTimeToken)
        → any (is_open h) rows ≡ false
        → any (is_open h) (update_where q (use_up now) rows) ≡ false
    use_up-IsSpent q now rows d =
        none-update_where (is_open h) q (use_up now) rows (λ t _. ground arith) d

    pub issue_link-IsSpent :
        (user : User) (purpose : TokenPurpose) (fresh : String) (now : ℕ) (s : People)
        → str_eq (lib.sha256 fresh) h ≡ false
        → IsSpent h s
        → IsSpent h (issue_link lib user purpose fresh now s).1
    unfolding issue_link
    issue_link-IsSpent user purpose fresh now s other d =
        rw other (use_up-IsSpent (is_superseded user.id purpose) now s.one_time_tokens d)

    pub start_reset-IsSpent :
        (email fresh : String) (now : ℕ) (s : People)
        → str_eq (lib.sha256 fresh) h ≡ false
        → IsSpent h s
        → IsSpent h (start_reset lib email fresh now s).1
    unfolding start_reset issue_link
    start_reset-IsSpent email fresh now s other d = elim (Option-cases (get_by_email lib s email)) [
      | inl nobody ↦ rw nobody d
      | inr (user, found) ↦ elim (Bool-cases user.is_guest) [
        | inl guest ↦ rw (found, guest) d
        | inr known ↦ rw (found, known) (issue_link-IsSpent user password_reset fresh now s other d)
      ]
    ]

    redeem-IsSpent :
        (token : String) (purpose : TokenPurpose) (now : ℕ) (s : People)
        → IsSpent h s
        → IsSpent h (redeem lib token purpose now s).1
    unfolding redeem
    redeem-IsSpent token purpose now s d =
        elim (Option-cases (find (has_link_hash (lib.sha256 token)) s.one_time_tokens)) [
          | inl unknown ↦ rw unknown d
          | inr (row, found) ↦ elim (Bool-cases (may_redeem purpose now row)) [
            | inr stale ↦ rw (found, stale) d
            | inl good ↦ elim (Option-cases (user_of s row.user_id)) [
              | inl nobody ↦ rw (found, good, nobody) d
              | inr (user, known) ↦ elim (Bool-cases user.is_active) [
                | inr off ↦ rw (found, good, known, off) d
                | inl on ↦
                    rw (found, good, known, on)
                      (use_up-IsSpent (has_link_hash (lib.sha256 token)) now s.one_time_tokens d)
              ]
            ]
          ]
        ]

    pub complete_reset-IsSpent :
        (token password : String) (now : ℕ) (s : People)
        → IsSpent h s
        → IsSpent h (complete_reset lib token password now s).1
    unfolding complete_reset revoke_all
    complete_reset-IsSpent token password now s d =
        let spent = redeem-IsSpent token password_reset now s d in
        elim (Run-cases (redeem lib token password_reset now s)) [
          | inr (e, c, r) ↦ rw r (subst (λ z. IsSpent h z.1) r spent)
          | inl (user, c, r) ↦ rw r (subst (λ z. IsSpent h z.1) r spent)
        ]

    pub verify_email-IsSpent :
        (token : String) (now : ℕ) (s : People)
        → IsSpent h s
        → IsSpent h (verify_email lib token now s).1
    unfolding verify_email
    verify_email-IsSpent token now s d =
        let spent = redeem-IsSpent token email_verification now s d in
        elim (Run-cases (redeem lib token email_verification now s)) [
          | inr (e, c, r) ↦ rw r (subst (λ z. IsSpent h z.1) r spent)
          | inl (user, c, r) ↦ rw r (subst (λ z. IsSpent h z.1) r spent)
        ]
