-- ===== src/Printing/Options/Selection.antt =====
-- What a page range selects.
use printvendo_backend.Prelude.{
  ltb, Bool-cases, length, all, Result, ok, err, ok-injective, ℕ, zero, suc, ◌+◌, ◌-◌, ◌≤◌, ◌<◌,
  ◌≡◌, subst, inl, inr, false, Option, none, some, List, [], ◌∷◌, arith,
}
use printvendo_backend.Printing.Options.{
  is_space, split_commas, without_spaces, match_token, insert_page, select_range, check_range,
  add_token, add_tokens, page_numbers, parse_given, parse_page_range,
}
use printvendo_backend.Printing.Options.{is_empty, check_match, chosen}

-- The pages ascend, starting above `low`, and none is above `total_pages`.
abbrev pub IsSelection : ℕ → ℕ → List ℕ → Type 0
IsSelection total_pages low [] = Unit
IsSelection total_pages low (p ∷ ps) = (low < p) × (p ≤ total_pages) × IsSelection total_pages p ps

insert_page-IsSelection :
    (total low p : ℕ) (ps : List ℕ)
    → low < p
    → p ≤ total
    → IsSelection total low ps
    → IsSelection total low (insert_page p ps)
unfolding insert_page
insert_page-IsSelection total low p [] lo hi h = (lo, hi, tt)
insert_page-IsSelection total low p (q ∷ qs) lo hi h =
    ground (arith, insert_page-IsSelection total q p qs)

select_range-IsSelection :
    (total start count : ℕ) (ps : List ℕ)
    → 1 ≤ start
    → start + count ≤ total + 1
    → IsSelection total 0 ps
    → IsSelection total 0 (select_range start count ps)
unfolding select_range
select_range-IsSelection total start zero ps lo hi h = h
select_range-IsSelection total start (suc count) ps lo hi h =
    select_range-IsSelection total (suc start) count (insert_page start ps) (omega arith)
      (omega arith) (insert_page-IsSelection total 0 start ps (omega arith) (omega arith) h)

-- A result that is a selection, if it is one at all.
abbrev Selects : ℕ → Result (List ℕ) → Type 0
Selects total (err e) = Unit
Selects total (ok ps) = IsSelection total 0 ps

check_range-Selects :
    (total : ℕ) (range : ℕ × ℕ) (ps : List ℕ)
    → IsSelection total 0 ps
    → Selects total (check_range total range ps)
unfolding check_range
check_range-Selects total (start, end) ps h =
    ground (arith, select_range-IsSelection total start (end + 1 - start) ps)

check_match-Selects :
    (total : ℕ) (o : Option (ℕ × ℕ)) (ps : List ℕ)
    → IsSelection total 0 ps
    → Selects total (check_match total o ps)
check_match-Selects total none ps h = tt
check_match-Selects total (some range) ps h = check_range-Selects total range ps h

add_token-Selects :
    (total : ℕ) (raw ps : List ℕ) → IsSelection total 0 ps → Selects total (add_token total raw ps)
unfolding add_token
add_token-Selects total raw ps h = elim (Bool-cases (is_empty (without_spaces raw))) [
  | inl blank ↦ rw blank h
  | inr more ↦ rw more (check_match-Selects total (match_token (without_spaces raw)) ps h)
]

then-Selects :
    (total : ℕ) (r : Result (List ℕ)) (f : List ℕ → Result (List ℕ))
    → Selects total r
    → ((ps : List ℕ) → IsSelection total 0 ps → Selects total (f ps))
    → Selects total (elim r [ err e ↦ err e | ok ps ↦ f ps ])
then-Selects total (err e) f h k = tt
then-Selects total (ok ps) f h k = k ps h

add_tokens-Selects :
    (total : ℕ) (tokens : List (List ℕ)) (ps : List ℕ)
    → IsSelection total 0 ps
    → Selects total (add_tokens total tokens ps)
unfolding add_tokens
add_tokens-Selects total [] ps h = h
add_tokens-Selects total (token ∷ tokens) ps h =
    then-Selects total (add_token total token ps) (add_tokens total tokens)
      (add_token-Selects total token ps h) (add_tokens-Selects total tokens)

page_numbers-IsSelection :
    (total start count : ℕ)
    → start + count ≤ total
    → IsSelection total start (page_numbers (suc start) count)
unfolding page_numbers
page_numbers-IsSelection total start zero h = tt
page_numbers-IsSelection total start (suc count) h =
    (omega arith, omega arith, page_numbers-IsSelection total (suc start) count (omega arith))

page_numbers_pos : (total : ℕ) → 1 ≤ total → 0 < length (page_numbers 1 total)
unfolding page_numbers
page_numbers_pos zero h = elim h [ ]
page_numbers_pos (suc n) h = omega arith

every_page :
    (total : ℕ) {pages : List ℕ}
    → 1 ≤ total
    → ◌≡◌ {A = Result (List ℕ)} (ok (page_numbers 1 total)) (ok pages)
    → IsSelection total 0 pages × (0 < length pages)
every_page total {pages} h p =
    let same = ok-injective (page_numbers 1 total) pages p in
    subst (λ l. IsSelection total 0 l × (0 < length l)) same
      (page_numbers-IsSelection total 0 total (omega arith), page_numbers_pos total h)

chosen-IsSelection :
    (total : ℕ) (r : Result (List ℕ)) {pages : List ℕ}
    → Selects total r
    → chosen r ≡ ok pages
    → IsSelection total 0 pages × (0 < length pages)
chosen-IsSelection total (err e) h p = cc
chosen-IsSelection total (ok []) h p = cc
chosen-IsSelection total (ok (q ∷ qs)) {pages} h p =
    let same = ok-injective (q ∷ qs) pages p in
    subst (λ l. IsSelection total 0 l × (0 < length l)) same (h, omega arith)

parse_given-IsSelection :
    (total : ℕ) (raw : List ℕ) {pages : List ℕ}
    → 1 ≤ total
    → parse_given total raw ≡ ok pages
    → IsSelection total 0 pages × (0 < length pages)
unfolding parse_given
parse_given-IsSelection total raw {pages} h p = elim (Bool-cases (all is_space raw)) [
  | inl blank ↦ every_page total h (rw blank at p)
  | inr given ↦
      let some_pages : ltb total 1 ≡ false = ground arith in
      chosen-IsSelection total (add_tokens total (split_commas raw) [])
        (add_tokens-Selects total (split_commas raw) [] tt) (rw (given, some_pages) at p)
]

-- For a document of at least one page: a page range that is accepted selects at least one page, and
-- the pages that it selects are pages of the document, ascending and without repetitions.
pub parse_page_range-IsSelection :
    (total : ℕ) (raw : Option (List ℕ)) {pages : List ℕ}
    → 1 ≤ total
    → parse_page_range total raw ≡ ok pages
    → IsSelection total 0 pages × (0 < length pages)
unfolding parse_page_range
parse_page_range-IsSelection total none h p = every_page total h p
parse_page_range-IsSelection total (some raw) h p = parse_given-IsSelection total raw h p
