-- ===== src/Printing/Options.antt =====
-- app/modules/printing/options.py: page ranges, print options and the work that they make.
-- A text is the list of its code points. `\d` is read as the ASCII digits; `str.split` and
-- `str.strip` as all of Python's white space.
pub mod Workload
mod Examples
pub mod Selection
pub mod Digits
pub mod Parts
pub mod Runs
pub mod RoundTrip
use printvendo_backend.Prelude.{
  ltb, leb, ◌==◌, if◌then◌else◌, filter, all, no_pages, bad_page_token, page_below_one,
  range_backwards, page_beyond, nothing_selected, bad_request, Result, ok, err, ℕ, zero, suc, ◌+◌,
  ◌-◌, ◌*◌, Bool, true, false, not, ◌&&◌, ◌||◌, Option, none, some, List, [], ◌∷◌,
}

-- `str.isspace`
abbrev pub is_space : ℕ → Bool
is_space c =
    (leb 9 c && leb c 13)
    || (leb 28 c && leb c 32)
    || (c == 133)
    || (c == 160)
    || (c == 5760)
    || (leb 8192 c && leb c 8202)
    || (c == 8232)
    || (c == 8233)
    || (c == 8239)
    || (c == 8287)
    || (c == 12288)

abbrev pub is_digit : ℕ → Bool
is_digit c = leb b'0' c && leb c b'9'

-- `raw.split(",")`: the part before the first comma, and the parts behind it.
abbrev add_to_first : ℕ → List (List ℕ) → List (List ℕ)
add_to_first c [] = (c ∷ []) ∷ []
add_to_first c (part ∷ parts) = (c ∷ part) ∷ parts

unfoldable pub split_commas : List ℕ → List (List ℕ)
split_commas [] = [] ∷ []
split_commas (c ∷ cs) = if c == b',' then [] ∷ split_commas cs else add_to_first c (split_commas cs)

-- `"".join(token.split())`
unfoldable pub without_spaces : List ℕ → List ℕ
without_spaces cs = filter (λ c. not (is_space c)) cs

-- `int(…)` of a run of digits that is not empty.
unfoldable pub number_from : ℕ → List ℕ → Option ℕ
number_from n [] = some n
number_from n (c ∷ cs) =
    let rest = number_from (n * 10 + (c - b'0')) cs in if is_digit c then rest else none

unfoldable pub number : List ℕ → Option ℕ
unfolding number_from
number [] = none
number (c ∷ cs) = number_from 0 (c ∷ cs)

-- The text before the first hyphen, and the text behind it where there is one.
unfoldable pub split_hyphen : List ℕ → List ℕ × Option (List ℕ)
split_hyphen [] = ([], none)
split_hyphen (c ∷ cs) =
    let (before, after) = split_hyphen cs in
    if c == b'-' then ([], some cs) else (c ∷ before, after)

-- RANGE_TOKEN: `^(\d+)(?:-(\d+))?$`, as the two ends.
abbrev range_of : Option ℕ → Option (Option ℕ) → Option (ℕ × ℕ)
range_of none _ = none
range_of (some start) none = some (start, start)
range_of (some start) (some none) = none
range_of (some start) (some (some end)) = some (start, end)

unfoldable pub match_token : List ℕ → Option (ℕ × ℕ)
unfolding split_hyphen number
match_token token =
    let (before, after) = split_hyphen token in
    range_of (number before) (elim after [ none ↦ none | some cs ↦ some (number cs) ])

-- One page put into an ascending list without repetitions: what `sorted` gives of the set.
unfoldable pub insert_page : ℕ → List ℕ → List ℕ
insert_page p [] = p ∷ []
insert_page p (q ∷ qs) =
    let rest = insert_page p qs in
    if ltb p q then p ∷ q ∷ qs else if p == q then q ∷ qs else q ∷ rest

-- `selected.update(range(start, start + count))`
unfoldable pub select_range : ℕ → ℕ → List ℕ → List ℕ
unfolding insert_page
select_range start zero selected = selected
select_range start (suc count) selected =
    select_range (suc start) count (insert_page start selected)

unfoldable pub check_range : ℕ → ℕ × ℕ → List ℕ → Result (List ℕ)
unfolding select_range
check_range total_pages (start, end) selected =
    if ltb start 1 || ltb end 1
    then err (bad_request page_below_one)
    else if ltb end start
    then err (bad_request range_backwards)
    else if ltb total_pages end
    then err (bad_request page_beyond)
    else ok (select_range start (end + 1 - start) selected)

abbrev check_match : ℕ → Option (ℕ × ℕ) → List ℕ → Result (List ℕ)
check_match total_pages none selected = err (bad_request bad_page_token)
check_match total_pages (some range) selected = check_range total_pages range selected

abbrev is_empty {ℓ} : {A : Type ℓ} → List A → Bool
is_empty [] = true
is_empty (_ ∷ _) = false

-- The body of the loop over the tokens.
unfoldable pub add_token : ℕ → List ℕ → List ℕ → Result (List ℕ)
unfolding without_spaces match_token check_range
add_token total_pages raw selected =
    let token = without_spaces raw in
    if is_empty token then ok selected else check_match total_pages (match_token token) selected

unfoldable pub add_tokens : ℕ → List (List ℕ) → List ℕ → Result (List ℕ)
add_tokens total_pages [] selected = ok selected
add_tokens total_pages (token ∷ tokens) selected = elim (add_token total_pages token selected) [
  | err e ↦ err e
  | ok selected' ↦ add_tokens total_pages tokens selected'
]

abbrev chosen : Result (List ℕ) → Result (List ℕ)
chosen (err e) = err e
chosen (ok []) = err (bad_request nothing_selected)
chosen (ok (p ∷ ps)) = ok (p ∷ ps)

-- `range(1, total_pages + 1)` is the pages from `start` on.
unfoldable pub page_numbers : ℕ → ℕ → List ℕ
page_numbers start zero = []
page_numbers start (suc count) = start ∷ page_numbers (suc start) count

unfoldable pub parse_given : ℕ → List ℕ → Result (List ℕ)
unfolding page_numbers add_tokens split_commas
parse_given total_pages raw =
    if all is_space raw
    then ok (page_numbers 1 total_pages)
    else if ltb total_pages 1
    then err (bad_request no_pages)
    else chosen (add_tokens total_pages (split_commas raw) [])

-- `parse_page_range`; `all is_space` is `not raw.strip()`.
unfoldable pub parse_page_range : ℕ → Option (List ℕ) → Result (List ℕ)
unfolding parse_given page_numbers
parse_page_range total_pages none = ok (page_numbers 1 total_pages)
parse_page_range total_pages (some raw) = parse_given total_pages raw
