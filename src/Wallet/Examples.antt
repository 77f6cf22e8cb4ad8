-- ===== src/Wallet/Examples.antt =====
-- Tests and instances of the wallet's theorems.
use printvendo_backend.Prelude.{
  pos, negsuc, ◌+ℤ◌, neg, ◌≤ℤ◌, already_recorded, conflict, err, ◌≡◌, refl, subst, none, List, [],
  ◌∷◌, arith,
}
use printvendo_backend.Money.{Decimal, as_money}
use printvendo_backend.Wallet.{
  topup, spend, refund, promo, Wallets, balance_of, credit, debit, Request, credits, debits, serve,
  run, empty,
}
use printvendo_backend.Wallet.Balance.{IsConsistent, run-IsConsistent, IsConsistent-empty}
use printvendo_backend.Wallet.Movement.{debit_takes}
use printvendo_backend.Wallet.Replay.{credit_once}

abbrev fifty : Decimal
fifty = record { coefficient = pos 50; places = 0 }

-- 19.995 rupees, which rounds to 20.00
abbrev almost_twenty : Decimal
almost_twenty = record { coefficient = pos 19995; places = 3 }

abbrev script : List Request
script =
    credits 7 fifty topup "pay_1" none
    ∷ debits 7 almost_twenty "ord_1" none
    ∷ debits 7 fifty "ord_2" none
    ∷ credits 7 fifty topup "pay_1" none
    ∷ credits 8 fifty promo "pay_1" none
    ∷ []

abbrev topped_up : Wallets
topped_up = record {
  rows = record { id = 1; user_id = 7; balance_inr = pos 5000 } ∷ [];
  entries =
      record {
        wallet_id = 1;
        kind = topup;
        amount_inr = pos 5000;
        balance_after_inr = pos 5000;
        reference = "pay_1";
        note = none;
      }
      ∷ [];
  next_id = 2;
}

-- One debit goes through, the second is short, the replayed top-up is refused.
run-script : balance_of (run script empty) 7 ≡ pos 3000
unfolding balance_of run serve as_money ◌+ℤ◌ neg
run-script = refl

run-IsConsistent_example : IsConsistent (run script empty)
run-IsConsistent_example = run-IsConsistent script empty IsConsistent-empty

topped_up-run : run (credits 7 fifty topup "pay_1" none ∷ []) empty ≡ topped_up
unfolding run serve as_money ◌+ℤ◌
topped_up-run = refl

topped_up-IsConsistent : IsConsistent topped_up
topped_up-IsConsistent =
    subst IsConsistent topped_up-run
      (run-IsConsistent (credits 7 fifty topup "pay_1" none ∷ []) empty IsConsistent-empty)

debit_takes_example :
    (as_money almost_twenty ≤ℤ balance_of topped_up 7)
    × (balance_of (debit 7 almost_twenty "ord_1" none topped_up).1 7 +ℤ as_money almost_twenty
        ≡ balance_of topped_up 7)
    × ((debit 7 almost_twenty "ord_1" none topped_up).1.entries
        ≡ record {
          wallet_id = 1;
          kind = spend;
          amount_inr = negsuc 1999;
          balance_after_inr = pos 3000;
          reference = "ord_1";
          note = none;
        }
          ∷ topped_up.entries)
unfolding debit as_money ◌+ℤ◌ neg
debit_takes_example = debit_takes 7 almost_twenty "ord_1" none topped_up topped_up-IsConsistent refl

credit_once_example :
    let t =
      run (debits 7 almost_twenty "ord_1" none ∷ []) (credit 7 fifty topup "pay_1" none empty).1 in
    credit 7 almost_twenty refund "pay_1" none t ≡ (err (conflict already_recorded), t)
unfolding credit as_money ◌+ℤ◌
credit_once_example =
    credit_once 7 fifty almost_twenty topup refund "pay_1" none none empty
      (debits 7 almost_twenty "ord_1" none ∷ []) refl (omega arith)
