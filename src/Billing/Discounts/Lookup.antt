-- ===== src/Billing/Discounts/Lookup.antt =====
-- The rate that is found after one was set or cleared.
use printvendo_backend.Prelude.{
  ◌==◌, if◌then◌else◌, Bool-cases, filter, find, update_where, find-update_where, find-hit,
  bad_duration, bad_percent, bad_request, ok, err-ok, ℕ, String, ◌≡◌, refl, ap, ◌∙◌, subst, inl,
  inr, Bool, true, false, not, ◌&&◌, Option, none, some, List, [], ◌∷◌, arith,
}
use printvendo_backend.Money.{Decimal, Money, as_money}
use printvendo_backend.Billing.Discounts.{
  check_discount, owner_rate_row, granted_rate, put_owner_rate, set_owner_discount,
  clear_owner_discount,
}
use printvendo_backend.Billing.Models.{OwnerDiscount, Terms}
use printvendo_backend.Billing.Quotes.{
  from_owner, is_allowed_duration, is_owner_rate, is_plan_rate, choose_rate, discount_for,
  is_percent,
}

abbrev same_key : ℕ → ℕ → ℕ → ℕ → Bool
same_key u m v n = v == u && n == m

-- Two keys that a row both matches are one.
own_key :
    (u m v n : ℕ) (d : OwnerDiscount)
    → same_key u m v n ≡ true
    → is_owner_rate v n d ≡ is_owner_rate u m d
own_key u m v n d h = ground arith

other_key :
    (u m v n : ℕ) (d : OwnerDiscount)
    → same_key u m v n ≡ false
    → is_owner_rate v n d ≡ true
    → is_owner_rate u m d ≡ false
other_key u m v n d h k = ground arith

-- The rates of the other owners and terms are found as before.
find-other :
    (u m v n : ℕ) (f : OwnerDiscount → OwnerDiscount) (ds : List OwnerDiscount)
    → same_key u m v n ≡ false
    → ((d : OwnerDiscount) → is_owner_rate v n (f d) ≡ is_owner_rate v n d)
    → find (is_owner_rate v n) (update_where (is_owner_rate u m) f ds) ≡ find (is_owner_rate v n) ds
find-other u m v n f [] h k = refl
find-other u m v n f (d ∷ ds) h k = elim (Bool-cases (is_owner_rate v n d)) [
  | inl hit ↦ rw (other_key u m v n d h hit, hit) refl
  | inr miss ↦ elim (Bool-cases (is_owner_rate u m d)) [
    | inl written ↦ rw (written, k d, miss) (find-other u m v n f ds h k)
    | inr kept ↦ rw (kept, miss) (find-other u m v n f ds h k)
  ]
]

find-cleared :
    (u m v n : ℕ) (ds : List OwnerDiscount)
    → find (is_owner_rate v n) (filter (λ d. not (is_owner_rate u m d)) ds)
      ≡ (if same_key u m v n then none else find (is_owner_rate v n) ds)
find-cleared u m v n [] = ground arith
find-cleared u m v n (d ∷ ds) =
    let rest = find-cleared u m v n ds in
    elim (Bool-cases (same_key u m v n)) [
      | inl own ↦ elim (Bool-cases (is_owner_rate u m d)) [
        | inl gone ↦ rw (own, gone) (rest ∙ rw own refl)
        | inr kept ↦ rw (own, kept, own_key u m v n d own, kept) (rest ∙ rw own refl)
      ]
      | inr other ↦ elim (Bool-cases (is_owner_rate v n d)) [
        | inl hit ↦ rw (other, other_key u m v n d other hit, hit) refl
        | inr miss ↦ elim (Bool-cases (is_owner_rate u m d)) [
          | inl gone ↦ rw (other, gone, miss) (rest ∙ rw other refl)
          | inr kept ↦ rw (other, kept, miss) (rest ∙ rw other refl)
        ]
      ]
    ]

-- What is found once `percent` has been written for an owner and a term.
IsGranted : ℕ → ℕ → Money → Terms → Terms → Type 0
IsGranted u m percent b b' =
    (v plan n : ℕ)
    → discount_for b' v plan n
      ≡ (if same_key u m v n then (percent, from_owner) else discount_for b v plan n)

matching_key : (u m v n : ℕ) → same_key u m v n ≡ true → (v ≡ u) × (n ≡ m)
matching_key u m v n h = (ground arith, ground arith)

own_row :
    (u m v n : ℕ) (percent : Money) (remark : Option String) (g : Option ℕ)
    → is_owner_rate v n (owner_rate_row u m percent remark g) ≡ same_key u m v n
own_row u m v n percent remark g = ground arith

put_owner_rate-IsGranted :
    (u m : ℕ) (percent : Money) (remark : Option String) (g : Option ℕ) (o : Option OwnerDiscount)
    (b : Terms)
    → find (is_owner_rate u m) b.owner_discounts ≡ o
    → IsGranted u m percent b (put_owner_rate u m percent remark g o b).1
unfolding IsGranted discount_for
put_owner_rate-IsGranted u m percent remark g none b h v plan n =
    elim (Bool-cases (same_key u m v n)) [
      | inl own ↦ rw (own_row u m v n percent remark g, own) refl
      | inr other ↦ rw (own_row u m v n percent remark g, other) refl
    ]
put_owner_rate-IsGranted u m percent remark g (some old) b h v plan n =
    let f = granted_rate percent remark g in
    elim (Bool-cases (same_key u m v n)) [
      | inr other ↦ rw (other, find-other u m v n f b.owner_discounts other (λ d. refl)) refl
      | inl own ↦
          let key = matching_key u m v n own in
          let hit = find-hit (is_owner_rate u m) b.owner_discounts old h in
          rw
            (
              own,
              key.0,
              key.1,
              find-update_where (is_owner_rate u m) (is_owner_rate u m) f b.owner_discounts
                  (λ d. refl),
              h,
              hit,
            )
            refl
    ]

-- Once an owner has been granted a rate for a term, that rate is what every quote of the term finds
-- for them, whatever their plan; and for no other owner or term is another rate found than before.
pub set_owner_discount-lookup :
    (u m : ℕ) (percent : Decimal) (g : Option ℕ) (remark : Option String) (b b' : Terms)
    (d : OwnerDiscount) (v plan n : ℕ)
    → set_owner_discount u m percent g remark b ≡ (ok d, b')
    → discount_for b' v plan n
      ≡ (if same_key u m v n then (as_money percent, from_owner) else discount_for b v plan n)
unfolding set_owner_discount check_discount IsGranted
set_owner_discount-lookup u m percent g remark b b' d v plan n h =
    elim (Bool-cases (is_allowed_duration m)) [
      | inr odd ↦ err-ok (bad_request bad_duration) d b b' (rw odd at h)
      | inl whole ↦ elim (Bool-cases (is_percent (as_money percent))) [
        | inr beyond ↦ err-ok (bad_request bad_percent) d b b' (rw (whole, beyond) at h)
        | inl within ↦
            subst (IsGranted u m (as_money percent) b) (ap (λ z. z.1) (rw (whole, within) at h))
              (put_owner_rate-IsGranted u m (as_money percent) remark g
                (find (is_owner_rate u m) b.owner_discounts) b refl)
              v plan n
      ]
    ]

-- Once it is cleared, the owner's quotes of that term find the plan's rate, or none.
pub clear_owner_discount-lookup :
    (u m : ℕ) (b : Terms) (v plan n : ℕ)
    → discount_for (clear_owner_discount u m b) v plan n ≡ (
        if same_key u m v n
        then choose_rate none (find (is_plan_rate plan n) b.plan_discounts)
        else discount_for b v plan n)
unfolding discount_for clear_owner_discount
clear_owner_discount-lookup u m b v plan n = elim (Bool-cases (same_key u m v n)) [
  | inl own ↦ rw (own, find-cleared u m v n b.owner_discounts, own) refl
  | inr other ↦ rw (other, find-cleared u m v n b.owner_discounts, other) refl
]
