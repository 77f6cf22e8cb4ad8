-- ===== src/Printing/Options/Workload.antt =====
-- app/modules/printing/options.py: printing a page range, `PrintOptions.create` and `workload`.
-- Copies and page counts are natural numbers: the code refuses a negative count as it refuses 0.
use printvendo_backend.Prelude.{
  ltb, ◌==◌, if◌then◌else◌, Bool-cases, length, no_pages, no_copies, too_many_copies, bad_request,
  Result, ok, err, ℕ, zero, suc, ◌+◌, ◌*◌, ◌/◌, ◌%◌, ◌≡◌, refl, ap, inl, inr, Bool, true, false,
  Option, none, some, List, [], ◌∷◌, ◌++◌, arith,
}
use printvendo_backend.Printing.Options.{parse_page_range}

-- `str(n)`; the recursion takes as many steps as `n` has digits, so `n` itself is enough fuel.
unfoldable pub decimal_from : ℕ → ℕ → List ℕ
decimal_from zero n = []
decimal_from (suc fuel) n =
    let front = decimal_from fuel (n / 10) in
    if ltb n 10 then (b'0' + n) ∷ [] else front ++ (b'0' + n % 10) ∷ []

unfoldable pub decimal : ℕ → List ℕ
unfolding decimal_from
decimal n = decimal_from (suc n) n

unfoldable pub format_part : ℕ → ℕ → List ℕ
unfolding decimal
format_part start previous =
    if start == previous then decimal start else decimal start ++ b'-' ∷ decimal previous

-- The loop over `pages[1:]`, with the parts joined by commas.
unfoldable pub format_from : ℕ → ℕ → List ℕ → List ℕ
unfolding format_part
format_from start previous [] = format_part start previous
format_from start previous (page ∷ pages) = elim (page == previous + 1) [
  | true ↦ format_from start page pages
  | false ↦ format_part start previous ++ b',' ∷ format_from page page pages
]

unfoldable pub format_page_range : List ℕ → List ℕ
unfolding format_from
format_page_range [] = []
format_page_range (page ∷ pages) = format_from page page pages

pub record PrintOptions : Type 0 where
  pub colour : Bool
  pub duplex : Bool
  pub copies : ℕ
  pub page_range : Option (List ℕ)

abbrev pub max_copies : ℕ
max_copies = 50

-- All of the document is `None`.
abbrev normalised : ℕ → List ℕ → Option (List ℕ)
normalised total_pages pages =
    if length pages == total_pages then none else some (format_page_range pages)

abbrev with_pages : ℕ → Bool → Bool → ℕ → Result (List ℕ) → Result PrintOptions
with_pages total_pages colour duplex copies (err e) = err e
with_pages total_pages colour duplex copies (ok pages) = ok (record {
  colour = colour;
  duplex = duplex;
  copies = copies;
  page_range = normalised total_pages pages;
})

-- `PrintOptions.create`
unfoldable pub create : ℕ → Bool → Bool → ℕ → Option (List ℕ) → Result PrintOptions
unfolding parse_page_range format_page_range
create total_pages colour duplex copies page_range =
    if ltb total_pages 1
    then err (bad_request no_pages)
    else if ltb copies 1
    then err (bad_request no_copies)
    else if ltb max_copies copies
    then err (bad_request too_many_copies)
    else with_pages total_pages colour duplex copies (parse_page_range total_pages page_range)

pub record Workload : Type 0 where
  pub pages : ℕ
  pub selected_pages : ℕ
  pub impressions : ℕ
  pub sheets : ℕ
  pub sheets_both_sides : ℕ
  pub sheets_one_side : ℕ

-- The work that `selected` pages make.
unfoldable pub load_of : PrintOptions → ℕ → ℕ → Workload
load_of options total_pages selected =
    let impressions = selected * options.copies in
    let both_sides = if options.duplex then selected / 2 * options.copies else 0 in
    let one_side = if options.duplex then selected % 2 * options.copies else impressions in
    record {
      pages = total_pages;
      selected_pages = selected;
      impressions = impressions;
      sheets = both_sides + one_side;
      sheets_both_sides = both_sides;
      sheets_one_side = one_side;
    }

abbrev with_selected : PrintOptions → ℕ → Result (List ℕ) → Result Workload
with_selected options total_pages (err e) = err e
with_selected options total_pages (ok pages) = ok (load_of options total_pages (length pages))

unfoldable pub workload : PrintOptions → ℕ → Result Workload
unfolding parse_page_range load_of
workload options total_pages =
    with_selected options total_pages (parse_page_range total_pages options.page_range)

-- Every side that is printed is on a sheet, and no sheet is counted without a side: the sheets
-- printed on both sides count twice and the others once. Each copy of a duplex print takes half as
-- many sheets as it has pages, rounded up, and a simplex print one for each page.
pub load_of_sides :
    (o : PrintOptions) (total_pages selected : ℕ)
    → let w = load_of o total_pages selected in
      (2 * w.sheets_both_sides + w.sheets_one_side ≡ w.impressions)
      × (w.sheets ≡ (if o.duplex then (selected + 1) / 2 else selected) * o.copies)
      × (w.impressions ≡ selected * o.copies)
unfolding load_of
load_of_sides o total_pages selected =
    let c = o.copies in
    let whole : 2 * (selected / 2) + selected % 2 ≡ selected = omega arith in
    let up : (selected + 1) / 2 ≡ selected / 2 + selected % 2 = omega arith in
    let sides = ap (λ (n : ℕ). n * c) whole in
    let papers = ap (λ (n : ℕ). n * c) up in
    elim (Bool-cases o.duplex) [
      | inl both ↦ rw both (omega arith, omega arith, refl)
      | inr one ↦ rw one (omega arith, omega arith, refl)
    ]

pub workload-ok :
    (o : PrintOptions) (total_pages : ℕ) {pages : List ℕ}
    → parse_page_range total_pages o.page_range ≡ ok pages
    → workload o total_pages ≡ ok (load_of o total_pages (length pages))
unfolding workload
workload-ok o total_pages h = rw h
