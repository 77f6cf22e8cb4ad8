-- ===== src/Orders/Paying/Commit.antt =====
-- Paying from the balance, and the print tasks that follow.
use printvendo_backend.Prelude.{
  Bool-cases, filter, update_where, Error, bad_request, Result, ok, err, transaction, Run-cases,
  Result-cases, ℕ, ◌+◌, String, ◌≡◌, refl, sym, ap, ◌∙◌, subst, ◌⊎◌, inl, inr, none, some, List,
  ◌∷◌, ◌++◌,
}
use printvendo_backend.Money.{two_places, as_money}
use printvendo_backend.Money.Rounding.{as_money-two_places}
use printvendo_backend.Wallet.{WalletEntry, Wallets, debit}
use printvendo_backend.Payments.Models.{print_order, wallet, captured, Payment}
use printvendo_backend.Payments.Charges.{new_payment, record_wallet_payment}
use printvendo_backend.Printing.Models.{PrintTask, Shop}
use printvendo_backend.Orders.Models.{Order, Till, is_order}
use printvendo_backend.Orders.Paying.{
  require_payable, is_printable, enqueue_items, as_paid, mark_paid, payment_note, is_by_wallet,
  pay_with_wallet, wrong_method,
}
use printvendo_backend.Orders.Paying.Queued.{
  PrintEach, QueuesIf, filter-ArePrintable, enqueue_items-Queues,
}

-- An order that was paid from the balance: the debit went through, one payment records it, the order
-- is paid, and there is a print task for each of its documents.
pub record Committed (o : Order) (now : ℕ) (s s' : Shop Till) (ts : List PrintTask) : Type 0 where
  pub payable : require_payable o now ≡ ok tt
  pub entry : WalletEntry
  pub debited :
      debit o.user_id (two_places o.total_inr) o.public_id (payment_note o) s.outside.books.wallets
      ≡ (ok entry, s'.outside.books.wallets)
  pub payment : Payment
  pub recorded : s'.outside.books.payments ≡ payment ∷ s.outside.books.payments
  pub amount : payment.amount_inr ≡ o.total_inr
  pub of_order : payment.order_id ≡ some o.id
  pub by_balance : payment.source ≡ wallet
  pub arrived : payment.status ≡ captured
  pub order_paid :
      s'.outside.orders
      ≡ update_where (is_order o.id) (λ _. as_paid (some o.public_id) now o) s.outside.orders
  pub rows : s'.tasks ≡ s.tasks ++ ts
  pub waiting : PrintEach o.kiosk_id (filter is_printable o.items) ts

abbrev pub Outcome : Order → ℕ → Shop Till → Result (List PrintTask) × Shop Till → Type 0
Outcome o now s (answer, s') =
    ((e : Error) × (answer ≡ err e) × (s' ≡ s))
    ⊎ ((ts : List PrintTask) × (answer ≡ ok ts) × Committed o now s s' ts)

abbrev wallet_payment : Order → ℕ → Shop Till → Payment
wallet_payment o now s =
    new_payment s.outside.books.next_payment_id o.user_id print_order
      (as_money (two_places o.total_inr)) (some o.kiosk_id) (some o.id) none wallet none none
      captured (some now)

-- The shop once the money has moved and the order is paid, before its tasks are queued.
abbrev before_tasks : Order → ℕ → Shop Till → Wallets → Shop Till
before_tasks o now s w =
    let books = s.outside.books in
    record s {
      outside = record {
        orders =
            update_where (is_order o.id) (λ _. as_paid (some o.public_id) now o) s.outside.orders;
        books = record books {
          wallets = w;
          payments = wallet_payment o now s ∷ books.payments;
          next_payment_id = books.next_payment_id + 1;
        };
      };
    }

-- Paying from the balance is one commit. Either it is refused, and nothing at all has changed; or
-- the order could be paid, its total was debited from the wallet of the student under the order's
-- own reference, one captured payment of that total records it, the order is PAID, and for each
-- document of the order, in their order, a task waits at the kiosk, after the tasks that were there:
-- for that document, in the item's place, with the item's options and the sheets that they come to.
pub pay_with_wallet_commits :
    (label : ℕ → String) (o : Order) (now : ℕ) (s : Shop Till)
    → Outcome o now s (transaction (pay_with_wallet label o now) s)
unfolding pay_with_wallet mark_paid record_wallet_payment
pay_with_wallet_commits label o now s = elim (Result-cases (require_payable o now)) [
  | inr (e, r) ↦ rw r (inl (e, refl, refl))
  | inl (tt, payable) ↦ elim (Bool-cases (is_by_wallet o.payment_method)) [
    | inr other ↦ rw (payable, other) (inl (bad_request wrong_method, refl, refl))
    | inl method ↦
        elim (Run-cases (
          debit o.user_id (two_places o.total_inr) o.public_id (payment_note o)
            s.outside.books.wallets)) [
              | inr (e, w, d) ↦ rw (payable, method, d) (inl (e, refl, refl))
              | inl (entry, w, d) ↦
                  let row = wallet_payment o now s in
                  let mid = before_tasks o now s w in
                  elim (Run-cases
                    (enqueue_items label now o.kiosk_id (filter is_printable o.items) mid)) [
                      | inr (e, s', q) ↦ rw (payable, method, d, q) (inl (e, refl, refl))
                      | inl (ts, s', q) ↦
                          let done =
                            subst (QueuesIf o.kiosk_id (filter is_printable o.items) mid) q (
                              enqueue_items-Queues label now o.kiosk_id
                                (filter is_printable o.items) mid (filter-ArePrintable o.items)) in
                          rw (payable, method, d, q)
                            (inr (
                              ts,
                              refl,
                              record {
                                payable = payable;
                                entry = entry;
                                debited =
                                    d ∙ ap (λ t. (ok entry, t.books.wallets)) (sym done.outside);
                                payment = row;
                                recorded = ap (λ t. t.books.payments) done.outside;
                                amount = as_money-two_places o.total_inr;
                                of_order = refl;
                                by_balance = refl;
                                arrived = refl;
                                order_paid = ap (λ t. t.orders) done.outside;
                                rows = done.rows;
                                waiting = done.waiting;
                              },
                            ))
                    ]
            ]
  ]
]
