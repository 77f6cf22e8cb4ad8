-- ===== src/Identity/Visits/Examples.antt =====
-- Tests and instances of the theorems on sessions and links.
use printvendo_backend.Prelude.{
  pos, invalid_session, invalid_link, bad_request, unauthorized, ok, err, ℕ, str_append, ◌≡◌, refl,
  true, false, none, some, List, [], ◌∷◌, str_eq,
}
use printvendo_backend.Identity.Models.{
  student, User, email_verification, password_reset, OneTimeToken, RefreshToken, People, Hashing,
}
use printvendo_backend.Identity.Sessions.{issue_tokens, revoke_family, rotate_refresh, revoke_all}
use printvendo_backend.Identity.Links.{issue_link, redeem}
use printvendo_backend.Identity.Accounts.{authenticate, start_reset, complete_reset}
use printvendo_backend.Identity.Visits.{Visit, logs_in, refreshes, asks_reset, visit, run_visits}
use printvendo_backend.Identity.Visits.Reset.{complete_reset-signs_out}
use printvendo_backend.Identity.Visits.Redeemed.{redeem_once}

-- A hash that marks what it was given.
abbrev plain : Hashing
plain = record {
  sha256 = λ s. str_append "#" s;
  hash_password = λ s. str_append "$" s;
  verify_password = λ s stored. str_eq (str_append "$" s) stored;
  needs_rehash = λ s. false;
  lower = λ s. s;
  strip = λ s. s;
}

abbrev asha : User
asha = record {
  id = 7;
  email = "asha@example.test";
  hashed_password = "$old";
  full_name = none;
  is_active = true;
  is_guest = false;
  email_verified = true;
}

abbrev session_row : RefreshToken
session_row = record {
  user_id = 7;
  token_hash = "#laptop";
  family_id = "f1";
  expires_at = 99999;
  revoked_at = none;
}

abbrev link_row : OneTimeToken
link_row = record {
  user_id = 7;
  purpose = password_reset;
  token_hash = "#link";
  expires_at = 5000;
  used_at = none;
}

abbrev one_person : People
one_person = record {
  users = asha ∷ [];
  roles = record { user_id = 7; role = student } ∷ [];
  refresh_tokens = session_row ∷ [];
  one_time_tokens = link_row ∷ [];
  next_user_id = 8;
}

abbrev asha_again : User
asha_again = record asha { hashed_password = "$new" }

abbrev after_reset : People
after_reset = record one_person {
  users = asha_again ∷ [];
  refresh_tokens = record session_row { revoked_at = some (pos 1939) } ∷ [];
  one_time_tokens = record link_row { used_at = some 2000 } ∷ [];
}

reset_result : complete_reset plain "link" "new" 2000 one_person ≡ (ok asha_again, after_reset)
unfolding complete_reset redeem revoke_all
reset_result = refl

-- A login with the new password, and a try of the old session.
abbrev next_day : List (ℕ × Visit)
next_day =
    (100, logs_in "asha@example.test" "new" "f2" "phone")
    ∷ (5, refreshes "laptop" "stolen")
    ∷ (1, asks_reset "asha@example.test" "link2")
    ∷ []

logged_in :
    (rotate_refresh plain "phone" "phone2" 2200 (run_visits plain next_day 2000 after_reset)).0
    ≡ ok (record { access_for = 7; refresh = "phone2" })
unfolding run_visits visit authenticate issue_tokens rotate_refresh revoke_family start_reset
    issue_link
logged_in = refl

-- Inside the minute of grace, a rotated token is exchanged again.
two_tabs :
    (run_visits plain
      ((0, refreshes "laptop" "a") ∷ (60, refreshes "laptop" "b") ∷ [])
      1000
      one_person).refresh_tokens
    ≡ (run_visits plain
        ((60, refreshes "laptop" "b") ∷ [])
        1000
        (run_visits plain ((0, refreshes "laptop" "a") ∷ []) 1000 one_person)).refresh_tokens
unfolding run_visits visit rotate_refresh revoke_family
two_tabs = refl

-- A replay after the grace is refused, and the family's newer token is alive still: what
-- `revoke_family` wrote is rolled back with the request.
replay_rolled_back :
    (rotate_refresh plain "a" "c" 1200 (
      run_visits plain
        ((0, refreshes "laptop" "a") ∷ (100, refreshes "laptop" "b") ∷ [])
        1000
        one_person)).0
    ≡ ok (record { access_for = 7; refresh = "c" })
unfolding run_visits visit rotate_refresh revoke_family
replay_rolled_back = refl

complete_reset-signs_out_example :
    (rotate_refresh plain "laptop" "x" 2116 (run_visits plain next_day 2000 after_reset)).0
    ≡ err (unauthorized invalid_session)
complete_reset-signs_out_example =
    complete_reset-signs_out plain "link" "new" 2000 one_person after_reset asha_again "laptop" "x"
      next_day 10 reset_result refl (refl, (refl, (refl, tt)))

abbrev after_redeem : People
after_redeem = record one_person { one_time_tokens = record link_row { used_at = some 2000 } ∷ [] }

redeem_once_example :
    redeem plain "link" email_verification 2500 (run_visits plain next_day 2000 after_redeem)
    ≡ (err (bad_request invalid_link), run_visits plain next_day 2000 after_redeem)
unfolding redeem
redeem_once_example =
    redeem_once plain "link" password_reset email_verification 2000 2500 one_person after_redeem
      asha next_day refl (refl, (refl, (refl, tt)))
