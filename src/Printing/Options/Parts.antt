-- ===== src/Printing/Options/Parts.antt =====
-- The characters of a part, and the commas between parts.
use printvendo_backend.Prelude.{
  ◌==◌, Bool-cases, All, All-map, All-append, ℕ, ◌≡◌, refl, ap, inl, inr, Bool, true, false, not,
  ◌&&◌, List, [], ◌∷◌, ◌++◌, arith,
}
use printvendo_backend.Printing.Options.{is_space, is_digit, split_commas, without_spaces}
use printvendo_backend.Printing.Options.Digits.{AreDigits, decimal-AreDigits}
use printvendo_backend.Printing.Options.Workload.{decimal, format_part}

-- A character of a part: neither white space nor a comma.
abbrev pub is_plain : ℕ → Bool
is_plain c = not (is_space c) && not (c == b',')

abbrev pub ArePlain : List ℕ → Type 0
ArePlain cs = All (λ c. is_plain c ≡ true) cs

pub both_parts : (a b : Bool) → (not a && not b) ≡ true → (a ≡ false) × (b ≡ false)
both_parts false false h = (refl, refl)
both_parts false true h = absurd cc
both_parts true b h = absurd cc

-- A plain character is neither of the two.
pub plain_parts : (c : ℕ) → is_plain c ≡ true → (is_space c ≡ false) × ((c == b',') ≡ false)
plain_parts c h = both_parts (is_space c) (c == b',') h

pub digit_plain : (c : ℕ) → is_digit c ≡ true → is_plain c ≡ true
digit_plain c h = ground arith

pub digits_plain : (cs : List ℕ) → AreDigits cs → ArePlain cs
digits_plain cs h = All-map (λ c. is_digit c ≡ true) (λ c. is_plain c ≡ true) cs digit_plain h

pub format_part-ArePlain : (start previous : ℕ) → ArePlain (format_part start previous)
unfolding format_part
format_part-ArePlain start previous =
    let first = digits_plain (decimal start) (decimal-AreDigits start) in
    elim (Bool-cases (start == previous)) [
      | inl one ↦ rw one first
      | inr two ↦ rw two (
          All-append (λ c. is_plain c ≡ true) (decimal start) (b'-' ∷ decimal previous) first
            (refl, digits_plain (decimal previous) (decimal-AreDigits previous)))
    ]

pub without_spaces-plain : (cs : List ℕ) → ArePlain cs → without_spaces cs ≡ cs
unfolding without_spaces
without_spaces-plain [] h = refl
without_spaces-plain (c ∷ cs) h =
    rw (plain_parts c h.0).0 (ap (◌∷◌ c) (without_spaces-plain cs h.1))

pub split_commas-plain : (cs : List ℕ) → ArePlain cs → split_commas cs ≡ cs ∷ []
unfolding split_commas
split_commas-plain [] h = refl
split_commas-plain (c ∷ cs) h = rw ((plain_parts c h.0).1, split_commas-plain cs h.1) refl

pub split_commas-part :
    (cs rest : List ℕ) → ArePlain cs → split_commas (cs ++ b',' ∷ rest) ≡ cs ∷ split_commas rest
unfolding split_commas
split_commas-part [] rest h = refl
split_commas-part (c ∷ cs) rest h = rw ((plain_parts c h.0).1, split_commas-part cs rest h.1) refl
