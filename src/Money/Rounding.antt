-- ===== src/Money/Rounding.antt =====
-- How far rounding moves an amount, and the amounts that it leaves alone.
use native.Mathlib.Nat.{div-add-mod, mod-lt, pow-suc}
use printvendo_backend.Prelude.{
  ℕ, zero, suc, ◌+◌, ◌-◌, ◌*◌, ◌^◌, ◌≤◌, ◌<◌, ◌≡◌, refl, ap, ◌∙◌, List, [], ◌∷◌, map, arith, leb, ℤ,
  pos, negsuc, ◌+ℤ◌, ◌≤ℤ◌, ◌*ℤ◌, pos_part, neg_part, neg, int_laws, false,
}
use printvendo_backend.Money.{
  Money, two_places, round_half_up, quantize, as_money, to_paise, from_paise, add_decimal, add_all,
  sum_money,
}

pub as_money-two_places : (m : Money) → as_money (two_places m) ≡ m
unfolding as_money
as_money-two_places (pos n) = omega int_laws
as_money-two_places (negsuc n) = omega int_laws

-- `round_half_up` is the nearest whole number, and a half goes up.
pub round_half_up_near :
    (m d : ℕ)
    → 0 < d
    → (2 * d * round_half_up m d ≤ 2 * m + d) × (2 * m < 2 * d * round_half_up m d + d)
round_half_up_near m d h =
    let split = div-add-mod (2 * m + d) (2 * d) in
    let rest = mod-lt (2 * m + d) {m = 2 * d} (omega arith) in (omega arith, omega arith)

pub pow10_pos : (n : ℕ) → 0 < 10 ^ n
pow10_pos zero = omega arith
pow10_pos (suc n) = rw (pow-suc 10 n) (omega (arith, pow10_pos n))

leb-add-two : (k : ℕ) → leb (2 + suc k) 2 ≡ false
leb-add-two k = ground arith

add-sub-two : (k : ℕ) → 2 + k - 2 ≡ k
add-sub-two k = omega arith

pub quantize_near :
    (k m : ℕ)
    → (2 * 10 ^ k * quantize (2 + k) m ≤ 2 * m + 10 ^ k)
      × (2 * m < 2 * 10 ^ k * quantize (2 + k) m + 10 ^ k)
quantize_near zero m = (omega arith, omega arith)
quantize_near (suc k) m =
    rw (leb-add-two k, add-sub-two (suc k)) (round_half_up_near m (10 ^ suc k) (pow10_pos (suc k)))

near_pos :
    (p r n : ℕ)
    → (2 * p * r ≤ 2 * n + p) × (2 * n < 2 * p * r + p)
    → (pos (2 * p) *ℤ pos r ≤ℤ pos 2 *ℤ pos n +ℤ pos p)
      × (pos 2 *ℤ pos n ≤ℤ pos (2 * p) *ℤ pos r +ℤ pos p)
near_pos p r n h = (omega int_laws, omega int_laws)

neg-pos : (r : ℕ) → (pos_part (neg (pos r)) ≡ 0) × (neg_part (neg (pos r)) ≡ r)
unfolding neg
neg-pos r = ground arith

near_neg :
    (p r n : ℕ) (b : ℤ)
    → (pos_part b ≡ 0) × (neg_part b ≡ r)
    → (2 * p * r ≤ 2 * suc n + p) × (2 * suc n < 2 * p * r + p)
    → (pos (2 * p) *ℤ b ≤ℤ pos 2 *ℤ negsuc n +ℤ pos p)
      × (pos 2 *ℤ negsuc n ≤ℤ pos (2 * p) *ℤ b +ℤ pos p)
near_neg p r n b e h =
    let up = ap (λ (t : ℕ). 2 * p * t) e.0 in
    let down = ap (λ (t : ℕ). 2 * p * t) e.1 in (omega int_laws, omega int_laws)

-- An amount with two places or more is moved by half a paisa at most: on the scale of the finer
-- decimal, twice the rounded amount and twice the amount differ by one paisa or less.
pub as_money_near :
    (k : ℕ) (c : ℤ)
    → let paise = as_money (record { coefficient = c; places = 2 + k }) in
      (pos (2 * 10 ^ k) *ℤ paise ≤ℤ pos 2 *ℤ c +ℤ pos (10 ^ k))
      × (pos 2 *ℤ c ≤ℤ pos (2 * 10 ^ k) *ℤ paise +ℤ pos (10 ^ k))
unfolding as_money
as_money_near k (pos n) = near_pos (10 ^ k) (quantize (2 + k) n) n (quantize_near k n)
as_money_near k (negsuc n) =
    let r = quantize (2 + k) (suc n) in
    near_neg (10 ^ k) r n (neg (pos r)) (neg-pos r) (quantize_near k (suc n))

-- Paise converted to rupees and back are the same paise.
pub to_paise-from_paise : (p : ℤ) → to_paise (two_places (from_paise p)) ≡ p
unfolding to_paise from_paise
to_paise-from_paise p = as_money-two_places (as_money (two_places p)) ∙ as_money-two_places p

unfoldable pub sum : List Money → Money
sum [] = pos 0
sum (m ∷ ms) = m +ℤ sum ms

pub add-two_places : (a b : Money) → add_decimal (two_places a) (two_places b) ≡ two_places (a +ℤ b)
add-two_places a b = ap two_places (omega int_laws)

add_all-two_places :
    (total : Money) (ms : List Money)
    → as_money (add_all (two_places total) (map two_places ms)) ≡ total +ℤ sum ms
unfolding add_all sum
add_all-two_places total [] = rw as_money-two_places (omega int_laws)
add_all-two_places total (m ∷ ms) =
    ap (λ d. as_money (add_all d (map two_places ms))) (add-two_places total m)
    ∙ add_all-two_places (total +ℤ m) ms
    ∙ omega int_laws

add_start :
    (m : Money)
    → add_decimal (record { coefficient = pos 0; places = 0 }) (two_places m) ≡ two_places m
add_start m = ap two_places (omega int_laws)

add_all_start :
    (ms : List Money)
    → as_money (add_all (record { coefficient = pos 0; places = 0 }) (map two_places ms)) ≡ sum ms
unfolding add_all sum as_money
add_all_start [] = refl
add_all_start (m ∷ ms) =
    ap (λ d. as_money (add_all d (map two_places ms))) (add_start m) ∙ add_all-two_places m ms

-- Amounts of whole paise are summed exactly: nothing is rounded on the way.
pub sum_money-two_places : (ms : List Money) → sum_money (map two_places ms) ≡ sum ms
unfolding sum_money
sum_money-two_places ms = add_all_start ms
