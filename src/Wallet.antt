-- ===== src/Wallet.antt =====
-- app/modules/wallet/ledger.py over the rows of app/modules/wallet/models.py.
-- Each operation is one transaction's statements, in order; Postgres runs the conditional UPDATE
-- under a row lock, so concurrent requests are the operations one after another in some order.
pub mod Balance
pub mod Movement
pub mod Replay
mod Examples
use printvendo_backend.Prelude.{
  ℕ, ◌+◌, ◌==◌, str_eq, String, Bool, true, false, ◌&&◌, Option, none, some, List, [], ◌∷◌, find,
  any, update_where, if◌then◌else◌, ℤ, pos, ◌+ℤ◌, neg, leb_ℤ, Exec, Result, ok, err, pure, raise,
  ◌>>=◌, ◌>>◌, transaction, raise_if, bad_request, conflict, not_enough, already_recorded,
  must_be_positive,
}
use printvendo_backend.Money.{Decimal, Money, as_money}

pub data EntryKind : Type 0 where
  topup spend refund adjustment promo : EntryKind

pub record Wallet : Type 0 where
  pub id : ℕ
  pub user_id : ℕ
  pub balance_inr : Money

-- Signed: credits positive, spends negative.
pub record WalletEntry : Type 0 where
  pub wallet_id : ℕ
  pub kind : EntryKind
  pub amount_inr : Money
  pub balance_after_inr : Money
  pub reference : String
  pub note : Option String

-- The two tables, the entries newest first, and the id that the next wallet gets.
pub record Wallets : Type 0 where
  pub rows : List Wallet
  pub entries : List WalletEntry
  pub next_id : ℕ

abbrev pub owned_by : ℕ → Wallet → Bool
owned_by user_id w = w.user_id == user_id

add_wallet : ℕ → Exec Wallets Wallet
add_wallet user_id t =
    let wallet : Wallet = record { id = t.next_id; user_id = user_id; balance_inr = pos 0 } in
    (ok wallet, record t { rows = wallet ∷ t.rows; next_id = t.next_id + 1 })

or_add : ℕ → Option Wallet → Exec Wallets Wallet
unfolding add_wallet
or_add user_id (some wallet) = pure wallet
or_add user_id none = add_wallet user_id

unfoldable pub wallet_for : ℕ → Exec Wallets Wallet
unfolding or_add
wallet_for user_id t = or_add user_id (find (owned_by user_id) t.rows) t

abbrev balance_or_zero : Option Wallet → Money
balance_or_zero none = pos 0
balance_or_zero (some w) = w.balance_inr

unfoldable pub balance_of : Wallets → ℕ → Money
balance_of t user_id = balance_or_zero (find (owned_by user_id) t.rows)

-- The WHERE clause of the UPDATE: the wallet, and for a debit enough money in it.
abbrev pub movable : ℕ → Money → Bool → Wallet → Bool
movable wallet_id amount require_funds w =
    w.id == wallet_id && (if require_funds then leb_ℤ (neg amount) w.balance_inr else true)

abbrev pub add_money : Money → Wallet → Wallet
add_money amount w = record w { balance_inr = w.balance_inr +ℤ amount }

-- UNIQUE (wallet_id, reference)
abbrev pub has_reference : ℕ → String → WalletEntry → Bool
has_reference wallet_id reference e = e.wallet_id == wallet_id && str_eq e.reference reference

-- The INSERT, which the unique constraint can refuse.
insert_entry : WalletEntry → Exec Wallets WalletEntry
insert_entry entry t =
    if any (has_reference entry.wallet_id entry.reference) t.entries
    then (err (conflict already_recorded), t)
    else (ok entry, record t { entries = entry ∷ t.entries })

module _ (wallet : Wallet) (kind : EntryKind) (amount : Money) (reference : String)
    (note : Option String) where
  -- The entry that is written, given the row that the UPDATE changed.
  abbrev pub entry_after : Wallet → WalletEntry
  entry_after before = record {
    wallet_id = wallet.id;
    kind = kind;
    amount_inr = amount;
    balance_after_inr = before.balance_inr +ℤ amount;
    reference = reference;
    note = note;
  }

  record_movement : Option Wallet → Exec Wallets WalletEntry
  unfolding insert_entry
  record_movement none = raise (bad_request not_enough)
  record_movement (some before) = insert_entry (entry_after before)

  move_body : Bool → Exec Wallets WalletEntry
  unfolding record_movement
  move_body require_funds t =
      let matches = movable wallet.id amount require_funds in
      record_movement (find matches t.rows)
        (record t { rows = update_where matches (add_money amount) t.rows })

  -- `_move`: one savepoint around the UPDATE and the INSERT.
  unfoldable pub move : Bool → Exec Wallets WalletEntry
  unfolding move_body
  move require_funds = transaction (move_body require_funds)

unfoldable pub credit : ℕ → Decimal → EntryKind → String → Option String → Exec Wallets WalletEntry
unfolding wallet_for move
credit user_id amount kind reference note = do
  raise_if (leb_ℤ (as_money amount) (pos 0)) (bad_request must_be_positive)
  wallet ← wallet_for user_id
  move wallet kind (as_money amount) reference note false

or_not_enough : Option Wallet → Exec Wallets Wallet
or_not_enough none = raise (bad_request not_enough)
or_not_enough (some w) = pure w

unfoldable pub debit : ℕ → Decimal → String → Option String → Exec Wallets WalletEntry
unfolding or_not_enough move
debit user_id amount reference note = do
  raise_if (leb_ℤ (as_money amount) (pos 0)) (bad_request must_be_positive)
  wallet ← λ t. or_not_enough (find (owned_by user_id) t.rows) t
  move wallet spend (neg (as_money amount)) reference note true

-- One request on the wallets: what a caller asks for, each committed or rolled back on its own.
pub data Request : Type 0 where
  credits : ℕ → Decimal → EntryKind → String → Option String → Request
  debits : ℕ → Decimal → String → Option String → Request

unfoldable pub serve : Request → Wallets → Wallets
unfolding credit debit
serve (credits u a k r n) t = (transaction (credit u a k r n) t).1
serve (debits u a r n) t = (transaction (debit u a r n) t).1

unfoldable pub run : List Request → Wallets → Wallets
run [] t = t
run (q ∷ qs) t = run qs (serve q t)

abbrev pub empty : Wallets
empty = record { rows = []; entries = []; next_id = 1 }
