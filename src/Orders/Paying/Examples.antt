-- ===== src/Orders/Paying/Examples.antt =====
-- Tests and instances of the theorems on paying.
use printvendo_backend.Prelude.{
  pos, neg, conflict, err, transaction, ◌≡◌, refl, true, false, none, some, List, [], ◌∷◌, map,
}
use printvendo_backend.Wallet.{Wallets}
use printvendo_backend.Printing.Models.{Shop}
use printvendo_backend.Orders.Models.{
  OrderState, awaiting_payment, paid, by_wallet, document, OrderItem, Order, Till,
}
use printvendo_backend.Orders.Paying.{require_payable, payment_note, pay_with_wallet, order_expired}
use printvendo_backend.Orders.Paying.Commit.{Outcome, pay_with_wallet_commits}

abbrev thesis : OrderItem
thesis = record {
  position = 0;
  kind = document;
  document_id = some 4;
  colour = false;
  duplex = true;
  copies = 1;
  page_range = none;
  page_count = 10;
  impressions = 10;
  sheets = 5;
  amount_inr = pos 1500;
}

abbrev thesis_order : Order
thesis_order = record {
  id = 3;
  public_id = "ord_3";
  user_id = 9;
  kiosk_id = 7;
  state = awaiting_payment;
  subtotal_inr = pos 1500;
  fee_inr = pos 0;
  total_inr = pos 1500;
  payment_method = some by_wallet;
  payment_reference = none;
  expires_at = some 1300;
  paid_at = none;
  refunded_at = none;
  created_at = 100;
  items = thesis ∷ [];
}

abbrev fifty_rupees : Wallets
fifty_rupees = record {
  rows = record { id = 1; user_id = 9; balance_inr = pos 5000 } ∷ [];
  entries = [];
  next_id = 2;
}

abbrev open_shop : Shop Till
open_shop = record {
  tasks = [];
  outside = record {
    orders = thesis_order ∷ [];
    books = record {
      payments = [];
      refunds = [];
      wallets = fifty_rupees;
      next_payment_id = 1;
      outside = tt;
    };
  };
}

abbrev states_of : Shop Till → List OrderState
states_of s = map (λ o. o.state) s.outside.orders

thesis_paid :
    states_of (transaction (pay_with_wallet (λ n. "ptk") thesis_order 200) open_shop).1 ≡ paid ∷ []
unfolding pay_with_wallet neg
thesis_paid = refl

thesis_late :
    (transaction (pay_with_wallet (λ n. "ptk") thesis_order 1300) open_shop).0
    ≡ err (conflict order_expired)
unfolding pay_with_wallet require_payable
thesis_late = refl

note_of_kiosk : payment_note (record thesis_order { kiosk_id = 120 }) ≡ some "printing at kiosk 120"
unfolding payment_note
note_of_kiosk = refl

pay_with_wallet_commits_example :
    Outcome thesis_order 200 open_shop
      (transaction (pay_with_wallet (λ n. "ptk") thesis_order 200) open_shop)
pay_with_wallet_commits_example = pay_with_wallet_commits (λ n. "ptk") thesis_order 200 open_shop
