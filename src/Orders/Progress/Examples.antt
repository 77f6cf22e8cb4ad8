-- ===== src/Orders/Progress/Examples.antt =====
-- Tests and instances of the theorems on an order's progress.
use printvendo_backend.Prelude.{pos, ◌<◌, ◌≡◌, refl, ◌⊎◌, true, false, none, some, List, [], ◌∷◌}
use printvendo_backend.Printing.Models.{printing, failed, PrintTask}
use printvendo_backend.Orders.Models.{paid, partially_failed, by_wallet, document, Order}
use printvendo_backend.Orders.Progress.{prints_of, derive_from_prints}
use printvendo_backend.Orders.Progress.Derived.{Means, derive_from_prints-Means}

abbrev essay_order : Order
essay_order = record {
  id = 3;
  public_id = "ord_3";
  user_id = 9;
  kiosk_id = 7;
  state = paid;
  subtotal_inr = pos 1500;
  fee_inr = pos 0;
  total_inr = pos 1500;
  payment_method = some by_wallet;
  payment_reference = none;
  expires_at = some 1300;
  paid_at = some 150;
  refunded_at = none;
  created_at = 100;
  items =
      record {
        position = 0;
        kind = document;
        document_id = some 4;
        colour = false;
        duplex = true;
        copies = 1;
        page_range = none;
        page_count = 10;
        impressions = 10;
        sheets = 5;
        amount_inr = pos 1500;
      }
      ∷ [];
}

abbrev essay_print : PrintTask
essay_print = record {
  id = 1;
  public_id = "ptk_1";
  document_id = 4;
  kiosk_id = 7;
  state = failed;
  position = 0;
  colour = false;
  duplex = true;
  copies = 1;
  page_range = none;
  predicted_sheets = pos 5;
  actual_sheets = none;
  claimed_at = none;
  lease_expires_at = none;
  attempts = 1;
  started_at = none;
  finished_at = some 300;
  error_code = none;
  error_message = none;
  created_at = 150;
}

-- Last week's print of the same file is not one of the order's.
abbrev prints : List PrintTask
prints = record essay_print { id = 2; created_at = 50; state = printing } ∷ essay_print ∷ []

essay_state : (derive_from_prints essay_order prints).state ≡ partially_failed
unfolding derive_from_prints
essay_state = refl

derive_from_prints-Means_example :
    let o' = derive_from_prints essay_order prints in
    ((prints_of essay_order prints ≡ []) × (o' ≡ essay_order))
    ⊎ ((0 < 1)
        × Means (prints_of essay_order prints) o'.state
        × (o' ≡ record essay_order { state = o'.state }))
derive_from_prints-Means_example = derive_from_prints-Means essay_order prints
