-- ===== src/Printing/Options/RoundTrip.antt =====
-- A page range that is printed and parsed again.
use printvendo_backend.Prelude.{
  ltb, ◌==◌, ==_iff, Bool-cases, true_not_false, all, All-append, ok, ℕ, suc, ◌+◌, ◌-◌, ◌≤◌, ◌<◌,
  ◌≡◌, refl, sym, ap, ◌∙◌, inl, inr, true, false, some, List, [], ◌∷◌, ◌++◌, arith,
}
use printvendo_backend.Printing.Options.{
  is_space, is_digit, split_commas, number, split_hyphen, match_token, select_range, check_range,
  add_token, add_tokens, page_numbers, parse_given, parse_page_range, is_empty,
}
use printvendo_backend.Printing.Options.Digits.{
  AreDigits, decimal-AreDigits, number-decimal, match_token-format_part,
}
use printvendo_backend.Printing.Options.Selection.{IsSelection}
use printvendo_backend.Printing.Options.Workload.{
  decimal, format_part, format_from, format_page_range,
}
use printvendo_backend.Printing.Options.Parts.{
  plain_parts, digit_plain, format_part-ArePlain, without_spaces-plain, split_commas-plain,
  split_commas-part,
}
use printvendo_backend.Printing.Options.Runs.{
  AreBelow, below_later, append_assoc, append_nothing, select_range-last, page_numbers-AreBelow,
  page_numbers-snoc,
}

nonempty : (cs : List ℕ) (s p : ℕ) → match_token cs ≡ some (s, p) → is_empty cs ≡ false
unfolding match_token split_hyphen number
nonempty [] s p h = absurd cc
nonempty (c ∷ cs) s p h = refl

check_range-good :
    (total start previous : ℕ) (selected : List ℕ)
    → 1 ≤ start
    → start ≤ previous
    → previous ≤ total
    → check_range total (start, previous) selected
      ≡ ok (select_range start (previous + 1 - start) selected)
unfolding check_range
check_range-good total start previous selected a b c =
    let one : ltb start 1 ≡ false = ground arith in
    let two : ltb previous 1 ≡ false = ground arith in
    let three : ltb previous start ≡ false = ground arith in
    let four : ltb total previous ≡ false = ground arith in rw (one, two, three, four) refl

-- A part that is printed adds its pages behind those that are below it.
add_token-part :
    (total start previous : ℕ) (selected : List ℕ)
    → 1 ≤ start
    → start ≤ previous
    → previous ≤ total
    → AreBelow start selected
    → add_token total (format_part start previous) selected
      ≡ ok (selected ++ page_numbers start (previous + 1 - start))
unfolding add_token
add_token-part total start previous selected a b c below =
    let part = format_part start previous in
    let plain = without_spaces-plain part (format_part-ArePlain start previous) in
    let matched = match_token-format_part start previous in
    rw (plain, nonempty part start previous matched, matched)
      (check_range-good total start previous selected a b c
        ∙ ap ok (select_range-last start (previous + 1 - start) selected below))

add_tokens-one :
    (total : ℕ) (token : List ℕ) (tokens : List (List ℕ)) (selected after : List ℕ)
    → add_token total token selected ≡ ok after
    → add_tokens total (token ∷ tokens) selected ≡ add_tokens total tokens after
unfolding add_tokens
add_tokens-one total token tokens selected after h = rw (add_tokens, h) refl

add_tokens-none : (total : ℕ) (selected : List ℕ) → add_tokens total [] selected ≡ ok selected
unfolding add_tokens
add_tokens-none total selected = refl

single_page :
    (page : ℕ) (pages : List ℕ) → page_numbers page (page + 1 - page) ++ pages ≡ page ∷ pages
unfolding page_numbers
single_page page pages =
    let one : page + 1 - page ≡ 1 = omega arith in ap (λ z. page_numbers page z ++ pages) one

-- A run of pages that goes on by one.
longer_run :
    (start previous page : ℕ) (rest : List ℕ)
    → start ≤ previous
    → page ≡ previous + 1
    → page_numbers start (page + 1 - start) ++ rest
      ≡ page_numbers start (previous + 1 - start) ++ page ∷ rest
longer_run start previous page rest l e =
    let many = previous + 1 - start in
    let grown : page + 1 - start ≡ suc many = omega arith in
    let last : start + many ≡ page = omega arith in
    ap (λ z. page_numbers start z ++ rest) grown
    ∙ ap (λ z. z ++ rest) (page_numbers-snoc start many)
    ∙ append_assoc (page_numbers start many) ((start + many) ∷ []) rest
    ∙ ap (λ z. page_numbers start many ++ z ∷ rest) last

format_from-parsed :
    (total start previous : ℕ) (pages selected : List ℕ)
    → 1 ≤ start
    → start ≤ previous
    → previous ≤ total
    → AreBelow start selected
    → IsSelection total previous pages
    → add_tokens total (split_commas (format_from start previous pages)) selected
      ≡ ok (selected ++ (page_numbers start (previous + 1 - start) ++ pages))
unfolding format_from
format_from-parsed total start previous [] selected a b c below chosen_pages =
    let part = format_part start previous in
    rw (split_commas-plain part (format_part-ArePlain start previous)) (
      add_tokens-one total part [] selected (selected ++ page_numbers start (previous + 1 - start))
        (add_token-part total start previous selected a b c below)
      ∙ add_tokens-none total (selected ++ page_numbers start (previous + 1 - start))
      ∙ ap (λ z. ok (selected ++ z))
          (sym (append_nothing (page_numbers start (previous + 1 - start)))))
format_from-parsed total start previous (page ∷ pages) selected a b c below chosen_pages =
    let above = chosen_pages.0 in
    let within = chosen_pages.1 in
    elim (Bool-cases (page == previous + 1)) [
      | inl next ↦
          let same = (==_iff page (previous + 1)).0 next in
          rw (format_from, next)
            (format_from-parsed total start page pages selected a (omega arith) within below
                chosen_pages.2
              ∙ ap (λ z. ok (selected ++ z)) (longer_run start previous page pages b same))
      | inr gap ↦
          let part = format_part start previous in
          let run = page_numbers start (previous + 1 - start) in
          let rest = format_from page page pages in
          let taken = selected ++ run in
          let lower =
            All-append (λ q. q < page) selected run
              (below_later start page selected (omega arith) below)
              (page_numbers-AreBelow start (previous + 1 - start) page (omega arith)) in
          rw (format_from, gap, split_commas-part part rest (format_part-ArePlain start previous))
            (add_tokens-one total part (split_commas rest) selected taken
                (add_token-part total start previous selected a b c below)
              ∙ format_from-parsed total page page pages taken (omega arith) (omega arith) within
                  lower chosen_pages.2
              ∙ ap (λ z. ok (taken ++ z)) (single_page page pages)
              ∙ ap ok (append_assoc selected run (page ∷ pages)))
    ]

-- What is printed starts with a digit, so it is not blank.
not_blank : (c : ℕ) (cs : List ℕ) → is_digit c ≡ true → all is_space (c ∷ cs) ≡ false
not_blank c cs h = rw (plain_parts c (digit_plain c h)).0 refl

not_blank-append : (cs ds : List ℕ) → all is_space cs ≡ false → all is_space (cs ++ ds) ≡ false
not_blank-append [] ds h = true_not_false h
not_blank-append (c ∷ cs) ds h = elim (Bool-cases (is_space c)) [
  | inl space ↦ rw space (not_blank-append cs ds (rw space at h))
  | inr visible ↦ rw visible refl
]

digits_not_blank :
    (n : ℕ) (cs : List ℕ) → AreDigits cs → number cs ≡ some n → all is_space cs ≡ false
unfolding number
digits_not_blank n [] d h = absurd cc
digits_not_blank n (c ∷ cs) d h = not_blank c cs d.0

format_part-not_blank : (start previous : ℕ) → all is_space (format_part start previous) ≡ false
unfolding format_part
format_part-not_blank start previous =
    let first =
      digits_not_blank start (decimal start) (decimal-AreDigits start) (number-decimal start) in
    elim (Bool-cases (start == previous)) [
      | inl one ↦ rw one first
      | inr two ↦ rw two (not_blank-append (decimal start) (b'-' ∷ decimal previous) first)
    ]

format_from-not_blank :
    (start previous : ℕ) (pages : List ℕ) → all is_space (format_from start previous pages) ≡ false
unfolding format_from
format_from-not_blank start previous [] = format_part-not_blank start previous
format_from-not_blank start previous (page ∷ pages) = elim (Bool-cases (page == previous + 1)) [
  | inl next ↦ rw (format_from, next) (format_from-not_blank start page pages)
  | inr gap ↦
      rw (format_from, gap)
        (not_blank-append (format_part start previous) (b',' ∷ format_from page page pages)
          (format_part-not_blank start previous))
]

-- A selection of pages that is not empty comes back from the text that is stored for it: printing
-- the page range and parsing it again, for a document of as many pages, gives the same pages.
pub parse_page_range-format_page_range :
    (total page : ℕ) (pages : List ℕ)
    → IsSelection total 0 (page ∷ pages)
    → parse_page_range total (some (format_page_range (page ∷ pages))) ≡ ok (page ∷ pages)
unfolding parse_page_range parse_given format_page_range
parse_page_range-format_page_range total page pages h =
    let above = h.0 in
    let within = h.1 in
    let some_pages : ltb total 1 ≡ false = ground arith in
    rw
      (
        format_from-not_blank page page pages,
        some_pages,
        format_from-parsed total page page pages [] (omega arith) (omega arith) within tt h.2,
        single_page page pages,
      )
      refl
