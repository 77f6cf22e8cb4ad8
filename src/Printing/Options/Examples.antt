-- ===== src/Printing/Options/Examples.antt =====
-- Tests and instances of the theorems on print options.
use printvendo_backend.Prelude.{
  ℕ, ◌+◌, ok, ◌*◌, ◌/◌, ◌<◌, ◌≡◌, refl, true, false, some, List, [], ◌∷◌, arith,
}
use printvendo_backend.Printing.Options.{parse_page_range}
use printvendo_backend.Printing.Options.Selection.{IsSelection, parse_page_range-IsSelection}
use printvendo_backend.Printing.Options.Workload.{
  PrintOptions, load_of, load_of_sides, format_page_range,
}
use printvendo_backend.Printing.Options.RoundTrip.{parse_page_range-format_page_range}

-- "2-3,1"
abbrev two_to_three_and_one : List ℕ
two_to_three_and_one = b'2' ∷ b'-' ∷ b'3' ∷ b',' ∷ b'1' ∷ []

parse_page_range-IsSelection_example : IsSelection 5 0 (1 ∷ 2 ∷ 3 ∷ []) × (0 < 3)
unfolding parse_page_range printvendo_backend.Printing.Options.add_token
parse_page_range-IsSelection_example =
    parse_page_range-IsSelection 5 (some two_to_three_and_one) (omega arith) refl

abbrev three_pages : PrintOptions
three_pages = record {
  copies = 2;
  colour = false;
  duplex = true;
  page_range = some two_to_three_and_one;
}

load_of_sides_example :
    let w = load_of three_pages 5 3 in
    (2 * w.sheets_both_sides + w.sheets_one_side ≡ w.impressions)
    × (w.sheets ≡ (3 + 1) / 2 * 2)
    × (w.impressions ≡ 3 * 2)
load_of_sides_example = load_of_sides three_pages 5 3

-- "2,4-6,9"
round_trip_text :
    format_page_range (2 ∷ 4 ∷ 5 ∷ 6 ∷ 9 ∷ []) ≡ b'2' ∷ b',' ∷ b'4' ∷ b'-' ∷ b'6' ∷ b',' ∷ b'9' ∷ []
unfolding format_page_range
round_trip_text = refl

five_pages : IsSelection 12 0 (2 ∷ 4 ∷ 5 ∷ 6 ∷ 9 ∷ [])
five_pages = ground arith

parse_page_range-format_page_range_example :
    parse_page_range 12 (some (format_page_range (2 ∷ 4 ∷ 5 ∷ 6 ∷ 9 ∷ [])))
    ≡ ok (2 ∷ 4 ∷ 5 ∷ 6 ∷ 9 ∷ [])
parse_page_range-format_page_range_example =
    parse_page_range-format_page_range 12 2 (4 ∷ 5 ∷ 6 ∷ 9 ∷ []) five_pages
