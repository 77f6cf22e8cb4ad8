-- ===== src/Orders/Quotes/Duplex.antt =====
-- Printing on both sides, and on one: what it costs and the paper that it takes.
use printvendo_backend.Prelude.{
  Bool-cases, pos, pos_part, neg_part, ◌+ℤ◌, ◌*ℤ◌, ◌≤ℤ◌, int_laws, ℕ, zero, suc, ◌+◌, ◌*◌, ◌/◌, ◌%◌,
  ◌≤◌, ◌≡◌, refl, ap, inl, inr, Bool, true, false, arith,
}
use printvendo_backend.Money.{Money}
use printvendo_backend.Money.Rounding.{as_money-two_places}
use printvendo_backend.Printing.Options.Workload.{PrintOptions, load_of}
use printvendo_backend.Kiosks.Pricing.{Prices}
use printvendo_backend.Kiosks.Pricing.Fair.{IsFair}
use printvendo_backend.Orders.Quotes.{rates, amount_of, line_of}

abbrev pub on_both_sides : Bool → PrintOptions → PrintOptions
on_both_sides b o = record o { duplex = b }

split_sides : (n : ℕ) → 2 * (n / 2) + n % 2 ≡ n
split_sides n = omega arith

mul_le : (a b x : ℕ) → a ≤ b → a * x ≤ b * x
mul_le a b zero h = omega arith
mul_le a b (suc x) h = omega (arith, mul_le a b x h)

amounts_compared :
    (one both : Money) (x y : ℕ)
    → both ≤ℤ one *ℤ pos 2
    → both *ℤ pos x +ℤ one *ℤ pos y ≤ℤ both *ℤ pos 0 +ℤ one *ℤ pos (2 * x + y)
amounts_compared one both x y h =
    let two : pos_part both + 2 * neg_part one ≤ 2 * pos_part one + neg_part both =
      omega int_laws in
    let scaled =
      mul_le (pos_part both + 2 * neg_part one) (2 * pos_part one + neg_part both) x two in
    omega int_laws

amount_of_order :
    (one both : Money) (n copies : ℕ)
    → both ≤ℤ one *ℤ pos 2
    → both *ℤ pos (n / 2 * copies) +ℤ one *ℤ pos (n % 2 * copies)
      ≤ℤ both *ℤ pos 0 +ℤ one *ℤ pos (n * copies)
amount_of_order one both n copies h =
    let sides = ap (λ (k : ℕ). k * copies) (split_sides n) in
    let same : 2 * (n / 2 * copies) + n % 2 * copies ≡ n * copies = omega arith in
    rw⁻¹ same (amounts_compared one both (n / 2 * copies) (n % 2 * copies) h)

-- The same pages and copies, at prices that are fair, cost no more on both sides than on one, and
-- take no more sheets.
pub duplex-cheaper :
    (o : PrintOptions) (total_pages selected : ℕ) (prices : Prices)
    → IsFair prices
    → let duplex =
        line_of
          (on_both_sides true o)
          prices
          (load_of (on_both_sides true o) total_pages selected) in
      let simplex =
        line_of
          (on_both_sides false o)
          prices
          (load_of (on_both_sides false o) total_pages selected) in
      (duplex.amount_inr ≤ℤ simplex.amount_inr)
      × (duplex.sheets ≤ simplex.sheets)
      × (duplex.impressions ≡ simplex.impressions)
unfolding line_of amount_of load_of
duplex-cheaper o total_pages selected prices h =
    let c = o.copies in
    let two = (rates o prices).0 in
    let one = (rates o prices).1 in
    let fair : two ≤ℤ one *ℤ pos 2 = fair_rates o prices h in
    let sides = ap (λ (k : ℕ). k * c) (split_sides selected) in
    (
      rw
          (
            as_money-two_places (two *ℤ pos (selected / 2 * c) +ℤ one *ℤ pos (selected % 2 * c)),
            as_money-two_places (two *ℤ pos 0 +ℤ one *ℤ pos (selected * c)),
          )
          (amount_of_order one two selected c fair),
      omega arith,
      refl,
    )
  where
    fair_rates :
        (o : PrintOptions) (prices : Prices)
        → IsFair prices
        → (rates o prices).0 ≤ℤ (rates o prices).1 *ℤ pos 2
    fair_rates o prices h = elim (Bool-cases o.colour) [
      | inl colour ↦ rw colour (h.color.1)
      | inr plain ↦ rw plain (h.bw.1)
    ]
