-- ===== src/Printing/Options/Digits.antt =====
-- Numbers written in digits and read again, and the characters between them.
use printvendo_backend.Prelude.{
  ltb, ◌==◌, ==_iff, Bool-cases, length, All, All-append, ℕ, zero, suc, ◌+◌, ◌-◌, ◌*◌, ◌/◌, ◌%◌,
  ◌≤◌, ◌<◌, ◌≡◌, refl, ap, ◌∙◌, inl, inr, true, false, none, some, List, [], ◌∷◌, ◌++◌, arith,
}
use printvendo_backend.Printing.Options.{is_digit, number_from, number, split_hyphen, match_token}
use printvendo_backend.Printing.Options.Workload.{decimal_from, decimal, format_part}

abbrev pub AreDigits : List ℕ → Type 0
AreDigits cs = All (λ c. is_digit c ≡ true) cs

-- The number that digits stand for, after those that `n` stands for.
unfoldable value : ℕ → List ℕ → ℕ
value n [] = n
value n (c ∷ cs) = value (n * 10 + (c - b'0')) cs

value-append : (n : ℕ) (cs : List ℕ) (c : ℕ) → value n (cs ++ c ∷ []) ≡ value n cs * 10 + (c - b'0')
unfolding value
value-append n [] c = refl
value-append n (d ∷ cs) c = value-append (n * 10 + (d - b'0')) cs c

number_from-value : (n : ℕ) (cs : List ℕ) → AreDigits cs → number_from n cs ≡ some (value n cs)
unfolding number_from value
number_from-value n [] h = refl
number_from-value n (c ∷ cs) h = rw h.0 (number_from-value (n * 10 + (c - b'0')) cs h.1)

digit_of : (n : ℕ) → n < 10 → is_digit (b'0' + n) ≡ true
digit_of n h = ground arith

one_digit : (n : ℕ) → n < 10 → value 0 ((b'0' + n) ∷ []) ≡ n
unfolding value
one_digit n h = omega arith

-- Digits that stand for a number.
record Writes (n : ℕ) (cs : List ℕ) : Type 0 where
  digits : AreDigits cs
  means : value 0 cs ≡ n
  some_digit : 0 < length cs

length-append : (cs : List ℕ) (c : ℕ) → 0 < length (cs ++ c ∷ [])
length-append [] c = omega arith
length-append (d ∷ cs) c = omega arith

decimal_from-Writes : (fuel n : ℕ) → n < fuel → Writes n (decimal_from fuel n)
unfolding decimal_from
decimal_from-Writes zero n h = absurd (omega arith)
decimal_from-Writes (suc fuel) n h = elim (Bool-cases (ltb n 10)) [
  | inl small ↦
      let under : n < 10 = ground arith in
      rw small (record {
        digits = (digit_of n under, tt);
        means = one_digit n under;
        some_digit = omega arith;
      })
  | inr large ↦
      let over : 10 ≤ n = ground arith in
      let front = decimal_from-Writes fuel (n / 10) (omega arith) in
      let last = n % 10 in
      let means = front.means in
      rw large (record {
        digits =
            All-append (λ c. is_digit c ≡ true) (decimal_from fuel (n / 10)) ((b'0' + last) ∷ [])
              front.digits (digit_of last (omega arith), tt);
        means = value-append 0 (decimal_from fuel (n / 10)) (b'0' + last) ∙ rw means (omega arith);
        some_digit = length-append (decimal_from fuel (n / 10)) (b'0' + last);
      })
]

number-Writes : (n : ℕ) (cs : List ℕ) → Writes n cs → number cs ≡ some n
unfolding number
number-Writes n [] w = let no = w.some_digit in absurd (omega arith)
number-Writes n (c ∷ cs) w = number_from-value 0 (c ∷ cs) w.digits ∙ ap some w.means

pub decimal-AreDigits : (n : ℕ) → AreDigits (decimal n)
unfolding decimal
decimal-AreDigits n = (decimal_from-Writes (suc n) n (omega arith)).digits

-- A number that is printed is read back.
pub number-decimal : (n : ℕ) → number (decimal n) ≡ some n
unfolding decimal
number-decimal n = number-Writes n (decimal n) (decimal_from-Writes (suc n) n (omega arith))

not_hyphen : (c : ℕ) → is_digit c ≡ true → (c == b'-') ≡ false
not_hyphen c h = ground arith

split_hyphen-digits : (cs : List ℕ) → AreDigits cs → split_hyphen cs ≡ (cs, none)
unfolding split_hyphen
split_hyphen-digits [] h = refl
split_hyphen-digits (c ∷ cs) h = rw (not_hyphen c h.0, split_hyphen-digits cs h.1) refl

split_hyphen-both : (cs ds : List ℕ) → AreDigits cs → split_hyphen (cs ++ b'-' ∷ ds) ≡ (cs, some ds)
unfolding split_hyphen
split_hyphen-both [] ds h = refl
split_hyphen-both (c ∷ cs) ds h = rw (not_hyphen c h.0, split_hyphen-both cs ds h.1) refl

-- A part that is printed is matched as its two ends.
pub match_token-format_part :
    (start previous : ℕ) → match_token (format_part start previous) ≡ some (start, previous)
unfolding match_token format_part
match_token-format_part start previous = elim (Bool-cases (start == previous)) [
  | inl one ↦
      let same = (==_iff start previous).0 one in
      rw (one, split_hyphen-digits (decimal start) (decimal-AreDigits start), number-decimal start)
        (ap (λ z. some (start, z)) same)
  | inr two ↦
      rw
        (
          two,
          split_hyphen-both (decimal start) (decimal previous) (decimal-AreDigits start),
          number-decimal start,
          number-decimal previous,
        )
        refl
]
