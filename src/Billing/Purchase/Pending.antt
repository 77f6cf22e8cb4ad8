-- ===== src/Billing/Purchase/Pending.antt =====
-- One checkout at a time: the unpaid subscriptions of an owner.
use mathlib.Core.Option
use printvendo_backend.Prelude.{
  ltb, leb, ◌==◌, ==_iff, ==_self, Bool-cases, true_not_false, Option-cases, find, count,
  count-update_where, count-none, count-found, pos, ltb_ℤ, already_buying, conflict, Result, ok,
  Exec, keep_if_ok, transaction, Run-cases, Result-cases, err-ok, ℕ, ◌+◌, ◌*◌, ◌≤◌, ◌≡◌, sym, ap,
  ◌∙◌, subst, inl, inr, true, false, Option, none, some, List, [], ◌∷◌, arith,
}
use printvendo_backend.Money.{Decimal, two_places, as_money}
use printvendo_backend.Billing.Models.{
  Plan, Subscription, Terms, is_active_status, is_pending_status, is_subscription,
  write_subscription,
}
use printvendo_backend.Billing.Quotes.{quote_subscription}
use printvendo_backend.Billing.Subscriptions.{
  active_subscription, day, extend_trial, with_trial, grant_trial, end_trial, set_negotiated_price,
}
use printvendo_backend.Billing.Purchase.{
  purchase_lifetime, is_pending_for, cancel, settle_open, promised_price, purchase_row,
  start_purchase, entitled_until, starting_at, in_force_from, activate_subscription, BillingEvent,
  buys, is_paid, tries, ends_trial, negotiates, on_subscription, bill, run_billing,
}

-- How many checkouts an owner has open.
abbrev pub open_checkouts : Terms → ℕ → ℕ
open_checkouts b u = count (is_pending_for u) b.subscriptions

abbrev pub AreSingle : Terms → Type 0
AreSingle b = (u : ℕ) → open_checkouts b u ≤ 1

-- The state after a request in a transaction.
abbrev After : Terms → Result Subscription × Terms → Type 0
After b r = AreSingle (keep_if_ok b r).1

-- A change of a row that opens no checkout.
written_single :
    (i : ℕ) (f : Subscription → Subscription) (b : Terms)
    → ((u : ℕ) (s : Subscription) → is_pending_for u (f s) ≡ true → is_pending_for u s ≡ true)
    → AreSingle b
    → AreSingle (write_subscription i f b)
written_single i f b k h u =
    let fewer = count-update_where (is_pending_for u) (is_subscription i) f b.subscriptions (k u) in
    let before = h u in omega arith

-- A row is added for an owner who has no checkout open.
added_single :
    (s : Subscription) (b : Terms) (n : ℕ)
    → open_checkouts b s.user_id ≡ 0
    → AreSingle b
    → AreSingle (record b { subscriptions = s ∷ b.subscriptions; next_id = n })
added_single s b n free h u =
    let before = h u in
    elim (Bool-cases (s.user_id == u)) [
      | inl own ↦
          let same : open_checkouts b u ≡ 0 =
            ap (open_checkouts b) (sym ((==_iff s.user_id u).0 own)) ∙ free in
          ground arith
      | inr other ↦ rw other (omega arith)
    ]

not_cancelled : (u : ℕ) (s : Subscription) → is_pending_for u (cancel s) ≡ false
not_cancelled u s = ground arith

-- Once the open checkout is dealt with, the owner has none.
settle_open_free :
    (u now : ℕ) (b b' : Terms)
    → AreSingle b
    → settle_open (find (is_pending_for u) b.subscriptions) now b ≡ (ok tt, b')
    → (open_checkouts b' u ≡ 0) × AreSingle b'
settle_open_free u now b b' h e = elim (Option-cases (find (is_pending_for u) b.subscriptions)) [
  | inl free ↦
      let same : b ≡ b' = ap (λ z. z.1) (rw free at e) in
      subst (λ z. (open_checkouts z u ≡ 0) × AreSingle z) same
        (count-none (is_pending_for u) b.subscriptions free, h)
  | inr (s, found) ↦ elim (Bool-cases (leb now (s.created_at + purchase_lifetime))) [
    | inl live ↦ err-ok (conflict already_buying) tt b b' (rw (found, live) at e)
    | inr lapsed ↦
        let fewer =
          count-found (is_pending_for u) (is_subscription s.id) cancel s b.subscriptions found
            (==_self s.id) (not_cancelled u) in
        let before = h u in
        let gone = write_subscription s.id cancel b in
        let none_left : open_checkouts gone u ≡ 0 = omega arith in
        subst (λ z. (open_checkouts z u ≡ 0) × AreSingle z)
          (ap (λ z. z.1) (rw (found, lapsed) at e))
          (
            none_left,
            written_single s.id cancel b (λ v x p. true_not_false (sym p ∙ not_cancelled v x)) h,
          )
  ]
]

start_purchase_single :
    (u : ℕ) (plan : Plan) (months now clock : ℕ) (b : Terms)
    → AreSingle b
    → After b (start_purchase u plan months now clock b)
unfolding start_purchase
start_purchase_single u plan months now clock b h =
    elim (Run-cases (settle_open (find (is_pending_for u) b.subscriptions) now b)) [
      | inr (e, c, r) ↦ rw r h
      | inl (done, c, r) ↦
          let free = settle_open_free u now b c h r in
          let promised = promised_price (active_subscription c clock u) in
          elim (Result-cases
            (quote_subscription c u plan months (Option.map two_places promised))) [
              | inr (e, q) ↦ rw (r, q) h
              | inl (q, e) ↦
                  rw (r, e)
                    (added_single (purchase_row u plan promised clock q c.next_id) c (c.next_id + 1)
                      free.0 free.1)
            ]
    ]

activate_subscription_single :
    (s : Subscription) (now clock : ℕ) (b : Terms)
    → AreSingle b
    → After b (activate_subscription s now clock b)
unfolding activate_subscription
activate_subscription_single s now clock b h = elim (Bool-cases (is_active_status s.status)) [
  | inl done ↦ rw done h
  | inr waiting ↦ elim (Bool-cases (is_pending_status s.status)) [
    | inr dead ↦ rw (waiting, dead) h
    | inl unpaid ↦ elim (Bool-cases (ltb s.duration_months 1)) [
      | inl short ↦ rw (waiting, unpaid, short) h
      | inr long ↦
          rw (waiting, unpaid, long)
            (written_single s.id
              (in_force_from
                (starting_at now (entitled_until (active_subscription b clock s.user_id) s.id))
                s.duration_months)
              b (λ u x p. ground arith) h)
    ]
  ]
]

grant_trial_single :
    (user_id plan_id days now clock : ℕ) (b : Terms)
    → AreSingle b
    → After b (grant_trial user_id plan_id days now clock b)
unfolding grant_trial
grant_trial_single user_id plan_id days now clock b h = elim (Bool-cases (ltb days 1)) [
  | inl short ↦ rw short h
  | inr long ↦ elim (Option-cases (with_trial (active_subscription b clock user_id))) [
    | inl first ↦ rw (long, first) (λ u. let before = h u in ground arith)
    | inr (s, again) ↦
        rw (long, again)
          (written_single s.id (extend_trial (now + day * days) plan_id) b (λ u x p. p) h)
  ]
]

set_negotiated_price_single :
    (s : Subscription) (price : Option Decimal) (b : Terms)
    → AreSingle b
    → After b (set_negotiated_price s price b)
unfolding set_negotiated_price
set_negotiated_price_single s none b h =
    written_single s.id (λ row. record row { negotiated_price = none }) b (λ u x p. p) h
set_negotiated_price_single s (some price) b h =
    elim (Bool-cases (ltb_ℤ (as_money price) (pos 0))) [
      | inl below ↦ rw below h
      | inr fine ↦ rw fine (
          written_single s.id (λ row. record row { negotiated_price = some (as_money price) }) b
            (λ u x p. p) h)
    ]

on_subscription_single :
    (i : ℕ) (act : Subscription → Exec Terms Subscription) (b : Terms)
    → AreSingle b
    → ((s : Subscription) → After b (act s b))
    → After b (on_subscription i act b)
on_subscription_single i act b h k =
    elim (Option-cases (find (is_subscription i) b.subscriptions)) [
      | inl unknown ↦ rw unknown h
      | inr (s, found) ↦ rw found (k s)
    ]

bill_single : (e : BillingEvent) (clock : ℕ) (b : Terms) → AreSingle b → After b (bill e clock b)
unfolding bill end_trial
bill_single (buys u plan months) clock b h = start_purchase_single u plan months clock clock b h
bill_single (is_paid i) clock b h =
    on_subscription_single i (λ s. activate_subscription s clock clock) b h
      (λ s. activate_subscription_single s clock clock b h)
bill_single (tries u plan_id days) clock b h = grant_trial_single u plan_id days clock clock b h
bill_single (ends_trial i) clock b h =
    on_subscription_single i (λ s. end_trial s clock) b h
      (λ s. written_single s.id (λ row. record row { free_until = some clock }) b (λ u x p. p) h)
bill_single (negotiates i price) clock b h =
    on_subscription_single i (λ s. set_negotiated_price s price) b h
      (λ s. set_negotiated_price_single s price b h)

-- However purchases are started, paid, abandoned and started again, trials granted and ended, and
-- prices negotiated, at any times: an owner never has two unpaid subscriptions open, when no owner
-- had at the start.
pub run_billing-AreSingle :
    (es : List (BillingEvent × ℕ)) (b : Terms) → AreSingle b → AreSingle (run_billing es b)
unfolding run_billing
run_billing-AreSingle [] b h = h
run_billing-AreSingle (e ∷ es) b h =
    run_billing-AreSingle es (transaction (bill e.0 e.1) b).1 (bill_single e.0 e.1 b h)
