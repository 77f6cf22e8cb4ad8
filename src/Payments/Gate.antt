-- ===== src/Payments/Gate.antt =====
-- app/modules/payments/gate.py: whose Razorpay account collects at a kiosk.
-- The owner of a kiosk, a subscription in force and usable keys are looked up elsewhere.
mod Examples
use printvendo_backend.Prelude.{
  if◌then◌else◌, ℕ, ◌≡◌, refl, Bool, true, false, not, ◌&&◌, ◌||◌, Option, none, some, arith,
}
use printvendo_backend.Kiosks.Models.{Kiosk}
use printvendo_backend.Kiosks.Onboarding.{BillingCheck, owner_collects}

pub data Gateway : Type 0 where
  platform_gateway owner_gateway closed : Gateway

pub record Lookups : Type 0 where
  pub owner_of : Kiosk → Option ℕ
  pub has_active_subscription : ℕ → Bool
  pub has_usable_keys : ℕ → Bool

abbrev gate_of_owner : Lookups → Option ℕ → Gateway
gate_of_owner l none = closed
gate_of_owner l (some owner) =
    if not (l.has_active_subscription owner)
    then closed
    else if not (l.has_usable_keys owner)
    then closed
    else owner_gateway

unfoldable pub kiosk_payment_gate : Lookups → Kiosk → Gateway
kiosk_payment_gate l kiosk =
    if not (owner_collects kiosk.kiosk_type)
    then platform_gateway
    else gate_of_owner l (l.owner_of kiosk)

abbrev pub is_closed : Gateway → Bool
is_closed closed = true
is_closed _ = false

abbrev pub is_platform : Gateway → Bool
is_platform platform_gateway = true
is_platform _ = false

abbrev pub is_owner : Gateway → Bool
is_owner owner_gateway = true
is_owner _ = false

unfoldable pub can_take_payment : Lookups → Kiosk → Bool
unfolding kiosk_payment_gate
can_take_payment l kiosk = not (is_closed (kiosk_payment_gate l kiosk))

unfoldable pub wallet_may_be_spent : Lookups → Kiosk → Bool
unfolding kiosk_payment_gate
wallet_may_be_spent l kiosk =
    if not kiosk.accepts_wallet then false else is_platform (kiosk_payment_gate l kiosk)

-- `GateBilling`
abbrev pub gate_billing : Lookups → BillingCheck
unfolding kiosk_payment_gate
gate_billing l = record { owner_can_collect = λ kiosk. is_owner (kiosk_payment_gate l kiosk) }

-- What it takes for a shop to collect: an owner, with a subscription in force and usable keys.
abbrev pub shop_can_collect : Lookups → Kiosk → Bool
shop_can_collect l k = elim (l.owner_of k) [
  | none ↦ false
  | some owner ↦ l.has_active_subscription owner && l.has_usable_keys owner
]

-- At a kiosk where the shop collects, sold or SAAS, a payment can be taken exactly when it has an
-- owner with an active subscription and usable keys; at any other kiosk always. The onboarding
-- gate's question, whether the owner can collect, is answered yes exactly when the shop collects
-- there and has these. A balance may be spent exactly where the kiosk accepts it and the shop does
-- not collect.
pub gate_rules :
    (l : Lookups) (k : Kiosk)
    → (can_take_payment l k ≡ (not (owner_collects k.kiosk_type) || shop_can_collect l k))
      × ((gate_billing l).owner_can_collect k
          ≡ (owner_collects k.kiosk_type && shop_can_collect l k))
      × (wallet_may_be_spent l k ≡ (k.accepts_wallet && not (owner_collects k.kiosk_type)))
unfolding wallet_may_be_spent can_take_payment kiosk_payment_gate gate_billing
gate_rules l k = by_owner (l.owner_of k) refl
  where
    by_owner :
        (o : Option ℕ)
        → l.owner_of k ≡ o
        → (can_take_payment l k ≡ (not (owner_collects k.kiosk_type) || shop_can_collect l k))
          × ((gate_billing l).owner_can_collect k
              ≡ (owner_collects k.kiosk_type && shop_can_collect l k))
          × (wallet_may_be_spent l k ≡ (k.accepts_wallet && not (owner_collects k.kiosk_type)))
    by_owner none e = rw e (ground arith, ground arith, ground arith)
    by_owner (some owner) e = rw e (ground arith, ground arith, ground arith)
