-- ===== src/Billing/Purchase/Term.antt =====
-- The term that a paid subscription gets.
use printvendo_backend.Prelude.{
  ltb, ◌==◌, if◌then◌else◌, ==_self, Bool-cases, find, any, All, find-update_where-any,
  not_purchasable, no_months, bad_request, conflict, ok, ok-injective, err-ok, ℕ, ◌+◌, ◌*◌, ◌≤◌,
  ◌<◌, ◌≡◌, refl, sym, ap, ◌∙◌, subst, ◌⊎◌, inl, inr, true, false, Option, none, some, List, [],
  ◌∷◌, ◌++◌, arith,
}
use printvendo_backend.Billing.Purchase.{
  month, grace, entitled_until, starting_at, in_force_from, activate_subscription,
}
use printvendo_backend.Billing.Subscriptions.InForce.{is_in_force_any, has_active_subscription-any}
use printvendo_backend.Billing.Models.{
  Subscription, Terms, is_active_status, is_pending_status, is_subscription,
}
use printvendo_backend.Billing.Subscriptions.{
  later, is_in_force, counts_for, active_subscription, has_active_subscription,
}

abbrev pub to_list : Option ℕ → List ℕ
to_list none = []
to_list (some d) = d ∷ []

-- The moments until which another subscription entitles an owner, paid for or on trial.
abbrev pub ends_given : Option Subscription → ℕ → List ℕ
ends_given none id = []
ends_given (some a) id = if a.id == id then [] else to_list a.expires_at ++ to_list a.free_until

-- The term of `paid`, bought as `s` and put in force at `now`, after what `current` gives the owner.
pub record IsTerm (current : Option Subscription) (now : ℕ) (s paid : Subscription) : Type 0 where
  pub start : ℕ
  pub starts : paid.starts_at ≡ some start
  pub ends : paid.expires_at ≡ some (start + 2592000 * s.duration_months)
  pub grace_ends : paid.grace_ends_at ≡ some (start + 2592000 * s.duration_months + 432000)
  pub not_past : now ≤ start
  pub nothing_sold_twice : All (λ d. d ≤ start) (ends_given current s.id)
  pub nothing_skipped : (start ≡ now) ⊎ (any (λ d. d == start) (ends_given current s.id) ≡ true)
  pub price : paid.total_amount ≡ s.total_amount
  pub months : 1 ≤ s.duration_months

-- When a paid term starts.
record StartsWell (now start : ℕ) (given : List ℕ) : Type 0 where
  not_past : now ≤ start
  nothing_sold_twice : All (λ d. d ≤ start) given
  nothing_skipped : (start ≡ now) ⊎ (any (λ d. d == start) given ≡ true)

later-StartsWell :
    (now : ℕ) (a b : Option ℕ)
    → StartsWell now (starting_at now (later a b)) (to_list a ++ to_list b)
later-StartsWell now none none = record {
  not_past = omega arith;
  nothing_sold_twice = tt;
  nothing_skipped = inl refl;
}
later-StartsWell now none (some d) = record {
  not_past = ground arith;
  nothing_sold_twice = (ground arith, tt);
  nothing_skipped = ground arith;
}
later-StartsWell now (some d) none = record {
  not_past = ground arith;
  nothing_sold_twice = (ground arith, tt);
  nothing_skipped = ground arith;
}
later-StartsWell now (some d) (some e) = record {
  not_past = ground arith;
  nothing_sold_twice = (ground arith, (ground arith, tt));
  nothing_skipped = ground arith;
}

starting_at-StartsWell :
    (current : Option Subscription) (now id : ℕ)
    → StartsWell now (starting_at now (entitled_until current id)) (ends_given current id)
starting_at-StartsWell none now id = record {
  not_past = omega arith;
  nothing_sold_twice = tt;
  nothing_skipped = inl refl;
}
starting_at-StartsWell (some a) now id = elim (Bool-cases (a.id == id)) [
  | inl own ↦
      rw own
        (record { not_past = omega arith; nothing_sold_twice = tt; nothing_skipped = inl refl })
  | inr other ↦ rw other (later-StartsWell now a.expires_at a.free_until)
]

-- A paid term, to its end and through its grace, whatever it was before.
paid_in_force :
    (start months t : ℕ) (s : Subscription)
    → t < start + month * months + grace
    → counts_for t s.user_id (in_force_from start months s) ≡ true
unfolding is_in_force
paid_in_force start months t s l =
    let own = ==_self s.user_id in
    let any_end = is_in_force_any t (in_force_from start months s) in ground arith

-- When a subscription that awaits its payment is put in force, the owner is in force at every moment
-- before its months and its grace have passed from now; the term is thirty days for each month and the grace five more, at the price that was
-- quoted; it starts now, or when what the longest other subscription gave the owner ends, paid or on
-- trial and without its grace, whichever is later.
pub activate_subscription-IsTerm :
    (s paid : Subscription) (now clock t : ℕ) (b b' : Terms)
    → find (is_subscription s.id) b.subscriptions ≡ some s
    → is_pending_status s.status ≡ true
    → activate_subscription s now clock b ≡ (ok paid, b')
    → t < now + 2592000 * s.duration_months + 432000
    → IsTerm (active_subscription b clock s.user_id) now s paid
      × (has_active_subscription b' t s.user_id ≡ true)
unfolding activate_subscription
activate_subscription-IsTerm s paid now clock t b b' found unpaid h l =
    let current = active_subscription b clock s.user_id in
    let start = starting_at now (entitled_until current s.id) in
    let well = starting_at-StartsWell current now s.id in
    let not_yet : is_active_status s.status ≡ false = ground arith in
    elim (Bool-cases (ltb s.duration_months 1)) [
      | inl short ↦ err-ok (bad_request no_months) paid b b' (rw (not_yet, unpaid, short) at h)
      | inr long ↦
          let run = rw (not_yet, unpaid, long) at h in
          let row : in_force_from start s.duration_months s ≡ paid =
            ok-injective _ paid (ap (λ z. z.0) run) in
          (
            subst (IsTerm current now s) row (record {
              start = start;
              starts = refl;
              ends = refl;
              grace_ends = refl;
              not_past = well.not_past;
              nothing_sold_twice = well.nothing_sold_twice;
              nothing_skipped = well.nothing_skipped;
              price = refl;
              months = ground arith;
            }),
            has_active_subscription-any b' t s.user_id
                ∙ subst (λ z. any (counts_for t s.user_id) z.subscriptions ≡ true)
                    (ap (λ z. z.1) run)
                    (find-update_where-any (is_subscription s.id) (counts_for t s.user_id)
                      (in_force_from start s.duration_months) s b.subscriptions found (==_self s.id)
                      (paid_in_force start s.duration_months t s
                        (let later_start = well.not_past in omega arith))),
          )
    ]

-- An activation that is answered leaves the subscription in force.
activated_active :
    (s paid : Subscription) (now clock : ℕ) (b b' : Terms)
    → activate_subscription s now clock b ≡ (ok paid, b')
    → is_active_status paid.status ≡ true
unfolding activate_subscription
activated_active s paid now clock b b' h = elim (Bool-cases (is_active_status s.status)) [
  | inl done ↦
      let same : s ≡ paid = ok-injective s paid (ap (λ z. z.0) (rw done at h)) in
      ap (λ z. is_active_status z.status) (sym same) ∙ done
  | inr other ↦ elim (Bool-cases (is_pending_status s.status)) [
    | inr dead ↦ err-ok (conflict not_purchasable) paid b b' (rw (other, dead) at h)
    | inl unpaid ↦ elim (Bool-cases (ltb s.duration_months 1)) [
      | inl short ↦ err-ok (bad_request no_months) paid b b' (rw (other, unpaid, short) at h)
      | inr long ↦ sym (
          ap (λ z. is_active_status z.status)
            (ok-injective _ paid (ap (λ z. z.0) (rw (other, unpaid, long) at h))))
    ]
  ]
]

-- The webhook and the browser both settle a payment: the second finds the subscription in force, and
-- neither its term nor anything else changes, whenever it comes.
pub activate_again :
    (s paid : Subscription) (now clock now' clock' : ℕ) (b b' : Terms)
    → activate_subscription s now clock b ≡ (ok paid, b')
    → activate_subscription paid now' clock' b' ≡ (ok paid, b')
unfolding activate_subscription
activate_again s paid now clock now' clock' b b' h =
    rw (activate_subscription, activated_active s paid now clock b b' h) refl
