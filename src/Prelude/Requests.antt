-- ===== src/Prelude/Requests.antt =====
-- Requests: functions of the database that return a value or raise. What was written before a
-- raise stays written until the transaction around it rolls back (app/core/errors.py, app/core/db.py).
use Prim.Native.Nat.{ℕ}
use mathlib.Core.Path.{◌≡◌, refl}
use mathlib.Core.Logic.{◌⊎◌, inl, inr}
use mathlib.Core.Bool.{Bool, true, false}

-- The sentences that the code raises, without the values that are written into them.
pub data Detail : Type 0 where
  not_enough already_recorded must_be_positive : Detail
  already_finished not_in_hand not_failed negative_sheets other_kiosk : Detail
  no_pages bad_page_token page_below_one range_backwards page_beyond nothing_selected : Detail
  no_copies too_many_copies no_such_task : Detail
  price_negative price_too_low price_too_high no_price_given double_below_single double_above_two :
      Detail
  empty_order : Detail
  nothing_to_pay already_captured wrong_payment bad_signature : Detail
  unverified_delivery wrong_account : Detail
  bad_duration bad_percent bad_plan_price plan_retired no_plan_name no_kiosks : Detail
  floor_below_zero floor_above_ceiling plan_exists no_such_plan no_such_subscription short_trial :
      Detail
  already_buying not_purchasable no_months : Detail
  invalid_session invalid_link wrong_password same_password no_such_user : Detail
  email_taken bad_credentials : Detail
  illegal_destination nothing_to_reverse refund_exceeds not_captured : Detail
  refund_recorded no_gateway no_credentials key_elsewhere no_such_payment : Detail
  already_paid order_not_open order_expired wrong_method not_partly_failed already_refunded
        nothing_to_confirm :
      Detail
  no_such_move not_connected no_device no_such_command command_finished : Detail
  no_tray_given tray_too_small sheets_negative tray_overfull : Detail

-- The exception classes, each with its sentence.
pub data Error : Type 0 where
  bad_request unauthorized forbidden not_found conflict : Detail → Error
  rate_limited : ℕ → Error

pub data Result {ℓ} (A : Type ℓ) : Type ℓ where
  ok : A → Result A
  err : Error → Result A

pub ok-injective {ℓ} : {A : Type ℓ} (a b : A) → ok a ≡ ok b → a ≡ b
ok-injective a b h = cc

abbrev pub Exec {ℓ} : Type ℓ → Type ℓ → Type ℓ
Exec S A = S → Result A × S

module _ {ℓ} {S A : Type ℓ} where
  abbrev pub pure : A → Exec S A
  pure a s = (ok a, s)

  abbrev pub raise : Error → Exec S A
  raise e s = (err e, s)

  abbrev pub lift : Result A → Exec S A
  lift r s = (r, s)

  abbrev pub gets : (S → A) → Exec S A
  gets f s = (ok (f s), s)

  abbrev pub keep_if_ok : S → Result A × S → Result A × S
  keep_if_ok s (ok a, s') = (ok a, s')
  keep_if_ok s (err e, _) = (err e, s)

  -- `with db.begin_nested()` and `session_scope`: an exception undoes what the body wrote.
  abbrev pub transaction : Exec S A → Exec S A
  transaction m s = keep_if_ok s (m s)

module _ {ℓ} {S A B : Type ℓ} where
  abbrev pub continue : Result A × S → (A → Exec S B) → Result B × S
  continue (ok a, s) f = f a s
  continue (err e, s) f = (err e, s)

  infixl 5 ◌>>=◌ ◌>>◌
  abbrev pub ◌>>=◌ : Exec S A → (A → Exec S B) → Exec S B
  ◌>>=◌ m f s = continue (m s) f

  abbrev pub ◌>>◌ : Exec S A → Exec S B → Exec S B
  m >> n = m >>= λ _. n

abbrev pub raise_if {ℓ} : {S : Type ℓ} → Bool → Error → S → Result (Unit {ℓ}) × S
raise_if true e s = (err e, s)
raise_if false e s = (ok tt, s)

abbrev pub modify {ℓ} : {S : Type ℓ} → (S → S) → S → Result (Unit {ℓ}) × S
modify f s = (ok tt, f s)

-- How a call ended, with its value or exception and the state that it left.
pub Run-cases {ℓ} :
    {S A : Type ℓ} (r : Result A × S)
    → ((a : A) × (s : S) × (r ≡ (ok a, s))) ⊎ ((e : Error) × (s : S) × (r ≡ (err e, s)))
Run-cases (ok a, s) = inl (a, s, refl)
Run-cases (err e, s) = inr (e, s, refl)

-- What holds when a check raises and when it gives a value holds of the request that goes on with it.
pub lift-each {ℓ κ} :
    {S A B : Type ℓ} (P : Result B × S → Type κ) (r : Result A) (f : A → Exec S B) (s : S)
    → ((e : Error) → P (err e, s))
    → ((a : A) → r ≡ ok a → P (f a s))
    → P ((lift r >>= f) s)
lift-each P (ok a) f s bad good = good a refl
lift-each P (err e) f s bad good = bad e

pub Result-cases {ℓ} :
    {A : Type ℓ} (r : Result A) → ((a : A) × (r ≡ ok a)) ⊎ ((e : Error) × (r ≡ err e))
Result-cases (ok a) = inl (a, refl)
Result-cases (err e) = inr (e, refl)

-- A request that raised gave no value.
pub err-ok {ℓ κ} :
    {S A : Type ℓ} {X : Type κ} (e : Error) (a : A) (s s' : S)
    → ◌≡◌ {A = Result A × S} (err e, s) (ok a, s')
    → X
err-ok e a s s' h = cc

-- A check that refused gave no value.
pub refused-ok {ℓ κ} :
    {A : Type ℓ} {X : Type κ} (e : Error) (a : A) → ◌≡◌ {A = Result A} (err e) (ok a) → X
refused-ok e a h = cc
