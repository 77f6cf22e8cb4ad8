-- ===== src/Wallet/Movement.antt =====
-- What one movement does to the two tables, and what a successful debit does to the balance.
use printvendo_backend.Prelude.{
  ==_self, Bool-cases, Option-cases, find, any, update_where, find-All, find-update_where, pos,
  ◌+ℤ◌, neg, ◌≤ℤ◌, leb_ℤ, int_laws, leb_ℤ_le, ok, ok-injective, ℕ, String, ◌≡◌, refl, ap, ◌∙◌,
  subst, inl, inr, Bool, true, false, Option, some, List, ◌∷◌, eq_refl,
}
use printvendo_backend.Money.{Decimal, Money, as_money}
use printvendo_backend.Wallet.{
  EntryKind, spend, Wallet, WalletEntry, Wallets, owned_by, balance_of, movable, add_money,
  has_reference, entry_after, move, debit,
}
use printvendo_backend.Wallet.{balance_or_zero, or_not_enough, record_movement}
use printvendo_backend.Wallet.Balance.{total, Agrees, IsConsistent, moved-funds}

-- The owner of a wallet is not changed by a movement.
balance-update :
    (u : ℕ) (q : Wallet → Bool) (a : Money) (rows : List Wallet) (w : Wallet)
    → find (owned_by u) rows ≡ some w
    → q w ≡ true
    → balance_or_zero (find (owned_by u) (update_where q (add_money a) rows)) ≡ w.balance_inr +ℤ a
balance-update u q a rows w e hit =
    ap balance_or_zero (find-update_where (owned_by u) q (add_money a) rows (λ x. refl))
    ∙ rw (e, hit) refl

-- A movement that goes through: some row passed the WHERE clause, the reference was new, and both
-- tables were written.
module _ (w : Wallet) (k : EntryKind) (a : Money) (r : String) (n : Option String) (b : Bool)
    (t : Wallets) where
  pub record Moved (e : WalletEntry) : Type 0 where
    pub before : Wallet
    pub matched : find (movable w.id a b) t.rows ≡ some before
    pub fresh : any (has_reference w.id r) t.entries ≡ false
    pub written : (move w k a r n b t).1.entries ≡ e ∷ t.entries
    pub updated : (move w k a r n b t).1.rows ≡ update_where (movable w.id a b) (add_money a) t.rows
    pub referenced : has_reference w.id r e ≡ true

  pub move-Moved : (e : WalletEntry) → (move w k a r n b t).0 ≡ ok e → Moved e
  unfolding move
  move-Moved e done = elim (Option-cases (find (movable w.id a b) t.rows)) [
    | inl short ↦ cc (rw (short, record_movement) at done)
    | inr (before, f) ↦ elim (Bool-cases (any (has_reference w.id r) t.entries)) [
      | inl used ↦ cc (rw (f, record_movement, used) at done)
      | inr fresh ↦
          let row =
            ok-injective (entry_after w k a r n before) e
              (rw (f, record_movement, fresh) at done) in
          record {
            before = before;
            matched = f;
            fresh = fresh;
            written = rw (f, record_movement, fresh) (ap (λ x. x ∷ t.entries) row);
            updated = rw (f, record_movement, fresh);
            referenced =
                subst (λ x. has_reference w.id r x ≡ true) row (rw (==_self w.id) (eq_refl r));
          }
    ]
  ]

-- What a debit that went through did to the balance of the wallet's owner.
debit_found :
    (u : ℕ) (m : Money) (r : String) (n : Option String) (t : Wallets) (w : Wallet)
    → IsConsistent t
    → leb_ℤ m (pos 0) ≡ false
    → find (owned_by u) t.rows ≡ some w
    → (e : WalletEntry) → Moved w spend (neg m) r n true t e
    → let t' = (move w spend (neg m) r n true t).1 in
      (m ≤ℤ w.balance_inr)
      × (balance_or_zero (find (owned_by u) t'.rows) +ℤ m ≡ w.balance_inr)
      × (t'.entries ≡ e ∷ t.entries)
debit_found u m r n t w h gain f e moved =
    let funds = moved-funds w.id (neg m) true t moved.before h moved.matched in
    let agrees = (find-All (Agrees t.next_id t.entries) (owned_by u) t.rows w h.wallets f).0 in
    let hits : movable w.id (neg m) true w ≡ true = rw (==_self w.id, agrees.balanced) funds in
    let after = balance-update u (movable w.id (neg m) true) (neg m) t.rows w f hits in
    let covered : neg (neg m) ≤ℤ w.balance_inr =
      rw agrees.balanced (leb_ℤ_le (neg (neg m)) (total w.id t.entries) funds) in
    (omega int_laws, rw (moved.updated, after) (omega int_laws), moved.written)

-- Where every balance is the sum of its wallet's entries and none is negative, and no wallet has two
-- entries with one reference: a successful debit takes exactly the amount, rounded to paise, out of a
-- balance that covered it, and writes one entry.
pub debit_takes :
    (u : ℕ) (x : Decimal) (r : String) (n : Option String) (t : Wallets) {e : WalletEntry}
    → IsConsistent t
    → (debit u x r n t).0 ≡ ok e
    → (as_money x ≤ℤ balance_of t u)
      × (balance_of (debit u x r n t).1 u +ℤ as_money x ≡ balance_of t u)
      × ((debit u x r n t).1.entries ≡ e ∷ t.entries)
unfolding debit balance_of
debit_takes u x r n t {e} h done = elim (Bool-cases (leb_ℤ (as_money x) (pos 0))) [
  | inl refused ↦ cc (rw refused at done)
  | inr gain ↦ elim (Option-cases (find (owned_by u) t.rows)) [
    | inl missing ↦ cc (rw (gain, missing, or_not_enough) at done)
    | inr (w, f) ↦
        let m =
          move-Moved w spend (neg (as_money x)) r n true t e
            (rw (gain, f, or_not_enough) at done) in
        rw (gain, f, or_not_enough) (debit_found u (as_money x) r n t w h gain f e m)
  ]
]
