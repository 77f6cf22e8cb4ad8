-- ===== src/Orders/Quotes/Fees.antt =====
-- The fee of a gateway payment, and the total of a quote.
use printvendo_backend.Prelude.{
  leb, if◌then◌else◌, Bool-cases, All, pos, negsuc, pos_part, ◌+ℤ◌, ◌*ℤ◌, ◌≤ℤ◌, leb_ℤ, int_laws,
  empty_order, bad_request, ok, err, ℕ, ◌+◌, ◌*◌, ◌/◌, ◌^◌, ◌≤◌, ◌≡◌, refl, sym, ap, ◌∙◌, subst,
  ◌⊎◌, inl, inr, Bool, true, false, List, [], ◌∷◌, map, arith,
}
use printvendo_backend.Money.{Money, two_places, as_money, add_decimal, sum_money}
use printvendo_backend.Money.Rounding.{
  as_money-two_places, sum, add-two_places, sum_money-two_places,
}
use printvendo_backend.Orders.Quotes.{
  gateway_fee, LineQuote, OrderQuote, amounts, total_up, build, fee_of,
}

-- min(2 %, ₹2) in paise, the 2 % rounded half up.
abbrev pub plain_fee : ℕ → ℕ
plain_fee paise = if leb paise 10000 then (2 * paise + 50) / 100 else 200

mul_pos : (a b : ℕ) → pos a *ℤ pos b ≡ pos (a * b)
mul_pos a b = omega int_laws

-- The fee on a subtotal of that many paise is 2 % of it, rounded half up to a paisa, but 200 paise
-- from 100 rupees on.
pub gateway_fee_plain : (paise : ℕ) → gateway_fee (pos paise) ≡ pos (plain_fee paise)
unfolding gateway_fee as_money
gateway_fee_plain paise = elim (Bool-cases (leb paise 10000)) [
  | inl small ↦
      let under : leb_ℤ (pos (paise * 2 * 10 ^ 2)) (pos (200 * 10 ^ 4)) ≡ true = ground arith in
      rw (mul_pos paise 2, mul_pos (paise * 2) (10 ^ 2), mul_pos 200 (10 ^ 4), under, small)
        (ap pos (percent paise))
  | inr large ↦
      let over : leb_ℤ (pos (paise * 2 * 10 ^ 2)) (pos (200 * 10 ^ 4)) ≡ false = ground arith in
      rw (mul_pos paise 2, mul_pos (paise * 2) (10 ^ 2), mul_pos 200 (10 ^ 4), over, large) refl
]
  where
    percent : (n : ℕ) → (2 * (n * 2) + 100) / 200 ≡ (2 * n + 50) / 100
    percent n = omega arith

plain_fee_bound : (n : ℕ) → plain_fee n ≤ 200
plain_fee_bound n = ground arith

-- What the fee on a subtotal is, by the way of paying.
fee_of_cases :
    (w : Bool) (m : Money)
    → pos 0 ≤ℤ m
    → (fee_of w m ≡ (if w then pos 0 else pos (plain_fee (pos_part m))))
      × (pos 0 ≤ℤ fee_of w m)
      × (fee_of w m ≤ℤ pos 200)
unfolding fee_of
fee_of_cases true m h = (refl, omega arith, omega arith)
fee_of_cases false (pos n) h =
    rw (gateway_fee_plain n) (refl, omega arith, omega (arith, plain_fee_bound n))
fee_of_cases false (negsuc n) h = absurd (omega arith)

sum_not_negative :
    (lines : List LineQuote)
    → All (λ line. pos 0 ≤ℤ line.amount_inr) lines
    → pos 0 ≤ℤ sum (map (λ line. line.amount_inr) lines)
unfolding sum
sum_not_negative [] h = omega arith
sum_not_negative (line ∷ lines) h =
    let first = h.0 in let rest = sum_not_negative lines h.1 in omega int_laws

amounts-map :
    (lines : List LineQuote) → amounts lines ≡ map two_places (map (λ line. line.amount_inr) lines)
amounts-map [] = refl
amounts-map (line ∷ lines) = ap (◌∷◌ (two_places line.amount_inr)) (amounts-map lines)

subtotal_of :
    (lines : List LineQuote) → sum_money (amounts lines) ≡ sum (map (λ line. line.amount_inr) lines)
subtotal_of lines =
    ap sum_money (amounts-map lines) ∙ sum_money-two_places (map (λ line. line.amount_inr) lines)

total_of : (a b : Money) → as_money (add_decimal (two_places a) (two_places b)) ≡ a +ℤ b
total_of a b = ap as_money (add-two_places a b) ∙ as_money-two_places (a +ℤ b)

-- Of lines none of which has a negative amount: an order with no lines is refused. Otherwise the
-- quote has these lines, its subtotal is the sum of their amounts, and its total is the subtotal and
-- the fee, to the paisa. Paying by wallet adds no fee; otherwise the fee is 2 % of the subtotal
-- rounded half up, at most two rupees.
pub build_total :
    (lines : List LineQuote) (pays_by_wallet : Bool)
    → All (λ line. pos 0 ≤ℤ line.amount_inr) lines
    → ((lines ≡ []) × (build lines pays_by_wallet ≡ err (bad_request empty_order)))
      ⊎ ((q : OrderQuote) × (build lines pays_by_wallet ≡ ok q)
          × (q.lines ≡ lines)
          × (q.subtotal_inr ≡ sum (map (λ line. line.amount_inr) lines))
          × (q.total_inr ≡ q.subtotal_inr +ℤ q.fee_inr)
          × (q.fee_inr
              ≡ (if pays_by_wallet then pos 0 else pos (plain_fee (pos_part q.subtotal_inr))))
          × (pos 0 ≤ℤ q.fee_inr)
          × (q.fee_inr ≤ℤ pos 200))
unfolding build total_up
build_total [] pays_by_wallet h = inl (refl, refl)
build_total (line ∷ lines) w h =
    let ls = line ∷ lines in
    let m = sum_money (amounts ls) in
    let whole = subtotal_of ls in
    let fee = fee_of_cases w m (subst (λ x. pos 0 ≤ℤ x) (sym whole) (sum_not_negative ls h)) in
    inr (total_up ls w m, refl, refl, whole, total_of m (fee_of w m), fee.0, fee.1, fee.2)
