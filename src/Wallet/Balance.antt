-- ===== src/Wallet/Balance.antt =====
-- What the balances have to do with the entries of the ledger.
use printvendo_backend.Prelude.{
  ◌==◌, if◌then◌else◌, ==_iff, Bool-cases, Option-cases, find, any, update_where, All, All-map,
  find-All, ℤ, pos, ◌+ℤ◌, neg, ◌≤ℤ◌, leb_ℤ, int_laws, Result, ok, err, Exec, keep_if_ok, continue,
  ℕ, ◌+◌, ◌≤◌, ◌<◌, String, ◌≡◌, refl, sym, ap, ◌∙◌, inl, inr, Bool, true, false, Option, none,
  some, List, [], ◌∷◌, arith,
}
use printvendo_backend.Money.{Decimal, Money, as_money}
use printvendo_backend.Wallet.{
  EntryKind, spend, Wallet, WalletEntry, Wallets, owned_by, wallet_for, movable, add_money,
  has_reference, move, credit, debit, Request, credits, debits, serve, run, empty, record_movement,
  or_not_enough, or_add,
}

-- What the entries of one wallet add up to.
unfoldable pub total : ℕ → List WalletEntry → Money
total wallet_id [] = pos 0
total wallet_id (e ∷ es) =
    if e.wallet_id == wallet_id then e.amount_inr +ℤ total wallet_id es else total wallet_id es

-- A wallet that agrees with the ledger.
pub record Agrees (next_id : ℕ) (es : List WalletEntry) (w : Wallet) : Type 0 where
  pub balanced : w.balance_inr ≡ total w.id es
  pub covered : pos 0 ≤ℤ w.balance_inr
  pub issued : w.id < next_id

-- The entries are of wallets that exist, with one entry for each reference of a wallet.
abbrev pub IsLedger : ℕ → List WalletEntry → Type 0
IsLedger next_id [] = Unit
IsLedger next_id (e ∷ es) =
    (e.wallet_id < next_id)
    × (any (has_reference e.wallet_id e.reference) es ≡ false)
    × IsLedger next_id es

pub record IsConsistent (t : Wallets) : Type 0 where
  pub wallets : All (Agrees t.next_id t.entries) t.rows
  pub ledger : IsLedger t.next_id t.entries

total_fresh : (n k : ℕ) (es : List WalletEntry) → IsLedger n es → n ≤ k → total k es ≡ pos 0
unfolding total
total_fresh n k [] h le = refl
total_fresh n k (e ∷ es) h le = ground (arith, total_fresh n k es h.2 le)

IsLedger-suc : (n : ℕ) (es : List WalletEntry) → IsLedger n es → IsLedger (n + 1) es
IsLedger-suc n [] h = tt
IsLedger-suc n (e ∷ es) h = (omega arith, h.1, IsLedger-suc n es h.2)

Agrees-suc : (n : ℕ) (es : List WalletEntry) (w : Wallet) → Agrees n es w → Agrees (n + 1) es w
Agrees-suc n es w h = record { balanced = h.balanced; covered = h.covered; issued = omega arith }

-- `wallet_for` gives a wallet that is in the table, and the tables stay consistent.
pub Opens : Result Wallet × Wallets → Type 0
Opens (err e, t) = ⊥
Opens (ok w, t) = IsConsistent t × (w.id < t.next_id)

or_add-Opens :
    (u : ℕ) (o : Option Wallet) (t : Wallets)
    → ((w : Wallet) → o ≡ some w → w.id < t.next_id)
    → IsConsistent t
    → Opens (or_add u o t)
unfolding or_add Opens
or_add-Opens u (some w) t known h = (h, known w refl)
or_add-Opens u none t known h =
    let n = t.next_id in
    let es = t.entries in
    (
      record {
        wallets = (
          record {
            balanced = sym (total_fresh n n es h.ledger (omega arith));
            covered = omega arith;
            issued = omega arith;
          },
          All-map (Agrees n es) (Agrees (n + 1) es) t.rows (Agrees-suc n es) h.wallets,
        );
        ledger = IsLedger-suc n es h.ledger;
      },
      omega arith,
    )

find-issued :
    (u : ℕ) (t : Wallets)
    → IsConsistent t
    → (w : Wallet) → find (owned_by u) t.rows ≡ some w
    → w.id < t.next_id
find-issued u t h w e =
    let found = find-All (Agrees t.next_id t.entries) (owned_by u) t.rows w h.wallets e in
    let agrees = found.0 in agrees.issued

pub wallet_for-Opens : (u : ℕ) (t : Wallets) → IsConsistent t → Opens (wallet_for u t)
unfolding wallet_for
wallet_for-Opens u t h = or_add-Opens u (find (owned_by u) t.rows) t (find-issued u t h) h

+ℤ_comm : (a b : ℤ) → a +ℤ b ≡ b +ℤ a
+ℤ_comm a b = omega int_laws

funds_enough : (a x : ℤ) → leb_ℤ (neg a) x ≡ true → pos 0 ≤ℤ x +ℤ a
funds_enough a x h = let le : neg a ≤ℤ x = ground arith in omega int_laws

-- The rest is about one movement of an amount `a` in the wallet `id`, with the entry `e`.
module _ (n : ℕ) (es : List WalletEntry) (id : ℕ) (a : Money) (b : Bool) (e : WalletEntry)
    (of : e.wallet_id ≡ id) (moves : e.amount_inr ≡ a)
    (funds : (if b then leb_ℤ (neg a) (total id es) else true) ≡ true)
    (enough : pos 0 ≤ℤ total id es +ℤ a) where
  update-Agrees :
      (w : Wallet)
      → Agrees n es w
      → Agrees n (e ∷ es) (if movable id a b w then add_money a w else w)
  unfolding total
  update-Agrees w h = elim (Bool-cases (w.id == id)) [
    | inl same ↦
        let key : w.id ≡ id = (==_iff w.id id).0 same in
        let held : w.balance_inr ≡ total id es = h.balanced ∙ ap (λ k. total k es) key in
        let passes : movable id a b w ≡ true = rw (same, held) funds in
        rw passes (record {
          balanced = ground (arith, +ℤ_comm a (total id es));
          covered = rw held enough;
          issued = h.issued;
        })
    | inr other ↦
        rw other (record { balanced = ground arith; covered = h.covered; issued = h.issued })
  ]

  update_where-Agrees :
      (rows : List Wallet)
      → All (Agrees n es) rows
      → All (Agrees n (e ∷ es)) (update_where (movable id a b) (add_money a) rows)
  update_where-Agrees [] h = tt
  update_where-Agrees (w ∷ rows) h = (update-Agrees w h.0, update_where-Agrees rows h.1)

-- What the row that the UPDATE found says about the wallet's sum.
module _ (id : ℕ) (a : Money) (b : Bool) (t : Wallets) (before : Wallet) (h : IsConsistent t)
    (e : find (movable id a b) t.rows ≡ some before) where
  pub moved-total : (before.id ≡ id) × (before.balance_inr ≡ total id t.entries)
  moved-total =
      let found =
        find-All (Agrees t.next_id t.entries) (movable id a b) t.rows before h.wallets e in
      let agrees = found.0 in
      let balanced = agrees.balanced in
      let test = found.1 in
      let key : before.id ≡ id = ground arith in (key, balanced ∙ ap (λ k. total k t.entries) key)

  pub moved-funds : (if b then leb_ℤ (neg a) (total id t.entries) else true) ≡ true
  moved-funds =
      let found =
        find-All (Agrees t.next_id t.entries) (movable id a b) t.rows before h.wallets e in
      let test = found.1 in let held = moved-total.1 in ground arith

  moved-enough : (b ≡ false → pos 0 ≤ℤ a) → pos 0 ≤ℤ total id t.entries +ℤ a
  moved-enough gains =
      let found =
        find-All (Agrees t.next_id t.entries) (movable id a b) t.rows before h.wallets e in
      let agrees = found.0 in
      let covered : pos 0 ≤ℤ total id t.entries = rw (← moved-total.1) agrees.covered in
      let funds = moved-funds in
      elim (Bool-cases b) [
        | inl debits_too ↦ funds_enough a (total id t.entries) (rw debits_too at funds)
        | inr only_credits ↦ let gain = gains only_credits in omega int_laws
      ]

move-IsConsistent :
    (w : Wallet) (k : EntryKind) (a : Money) (r : String) (n : Option String) (b : Bool)
    (t : Wallets)
    → w.id < t.next_id
    → (b ≡ false → pos 0 ≤ℤ a)
    → IsConsistent t
    → IsConsistent (move w k a r n b t).1
unfolding move
move-IsConsistent w k a r n b t old gains h = elim (Option-cases (find (movable w.id a b) t.rows)) [
  | inl short ↦ rw (short, record_movement) h
  | inr (before, e) ↦ elim (Bool-cases (any (has_reference w.id r) t.entries)) [
    | inl used ↦ rw (e, record_movement, used) h
    | inr fresh ↦
        rw (e, record_movement, fresh)
          (record {
            wallets =
                update_where-Agrees t.next_id t.entries w.id a b _ refl refl
                  (moved-funds w.id a b t before h e) (moved-enough w.id a b t before h e gains)
                  t.rows h.wallets;
            ledger = (old, fresh, h.ledger);
          })
  ]
]

with_opened :
    (r : Result Wallet × Wallets) (f : Wallet → Exec Wallets WalletEntry)
    → Opens r
    → ((w : Wallet) (t : Wallets) → IsConsistent t → w.id < t.next_id → IsConsistent (f w t).1)
    → IsConsistent (continue r f).1
unfolding Opens
with_opened (ok w, t) f h keep = keep w t h.0 h.1
with_opened (err e, t) f h keep = absurd h

positive : (m : ℤ) → leb_ℤ m (pos 0) ≡ false → pos 0 ≤ℤ m
positive m h = ground arith

pub credit-IsConsistent :
    (u : ℕ) (x : Decimal) (k : EntryKind) (r : String) (n : Option String) (t : Wallets)
    → IsConsistent t
    → IsConsistent (credit u x k r n t).1
unfolding credit
credit-IsConsistent u x k r n t h = elim (Bool-cases (leb_ℤ (as_money x) (pos 0))) [
  | inl refused ↦ rw refused h
  | inr gain ↦ rw gain (
      with_opened (wallet_for u t) _ (wallet_for-Opens u t h) (λ w t' h' old.
        move-IsConsistent w k (as_money x) r n false t' old (λ _. positive (as_money x) gain) h'))
]

no_test : {P : Type 0} → true ≡ false → P
no_test e = cc

pub debit-IsConsistent :
    (u : ℕ) (x : Decimal) (r : String) (n : Option String) (t : Wallets)
    → IsConsistent t
    → IsConsistent (debit u x r n t).1
unfolding debit
debit-IsConsistent u x r n t h = elim (Bool-cases (leb_ℤ (as_money x) (pos 0))) [
  | inl refused ↦ rw refused h
  | inr gain ↦ elim (Option-cases (find (owned_by u) t.rows)) [
    | inl missing ↦ rw (gain, missing, or_not_enough) h
    | inr (w, e) ↦
        rw (gain, e, or_not_enough)
          (move-IsConsistent w spend (neg (as_money x)) r n true t (find-issued u t h w e) no_test
            h)
  ]
]

IsConsistent-rollback :
    {A : Type 0} (r : Result A × Wallets) (t : Wallets)
    → IsConsistent t
    → IsConsistent r.1
    → IsConsistent (keep_if_ok t r).1
IsConsistent-rollback (ok a, t') t old h = h
IsConsistent-rollback (err e, t') t old h = old

serve-IsConsistent : (q : Request) (t : Wallets) → IsConsistent t → IsConsistent (serve q t)
unfolding serve
serve-IsConsistent (credits u x k r n) t h =
    IsConsistent-rollback (credit u x k r n t) t h (credit-IsConsistent u x k r n t h)
serve-IsConsistent (debits u x r n) t h =
    IsConsistent-rollback (debit u x r n t) t h (debit-IsConsistent u x r n t h)

-- From wallets of which this holds, after any credits and debits, in any order, each of them refused
-- or not: every balance is the sum
-- of its wallet's entries, no balance is negative, and no wallet has two entries with one reference.
pub run-IsConsistent : (qs : List Request) (t : Wallets) → IsConsistent t → IsConsistent (run qs t)
unfolding run
run-IsConsistent [] t h = h
run-IsConsistent (q ∷ qs) t h = run-IsConsistent qs (serve q t) (serve-IsConsistent q t h)

pub IsConsistent-empty : IsConsistent empty
IsConsistent-empty = record { wallets = tt; ledger = tt }
