-- ===== src/Wallet/Replay.antt =====
-- A reference that is used once more.
use mathlib.Core.Option
use printvendo_backend.Prelude.{
  ◌==◌, if◌then◌else◌, ==_iff, ==_self, Bool-cases, Option-cases, find, any, find-update_where,
  find-hits, pos, neg, ◌<ℤ◌, leb_ℤ, already_recorded, conflict, Result, ok, err, Exec, keep_if_ok,
  continue, ℕ, ◌+◌, String, ◌≡◌, refl, ap, ◌∙◌, subst, inl, inr, Bool, true, false, Option, none,
  some, List, [], ◌∷◌, arith,
}
use printvendo_backend.Money.{Decimal, Money, as_money}
use printvendo_backend.Wallet.{
  EntryKind, spend, Wallet, WalletEntry, Wallets, owned_by, wallet_for, movable, add_money,
  has_reference, entry_after, move, credit, debit, Request, credits, debits, serve, run,
}
use printvendo_backend.Wallet.{or_not_enough, or_add, record_movement}
use printvendo_backend.Wallet.Movement.{Moved, move-Moved}

-- The wallet of `u` has an entry under the reference `r`.
abbrev in_ledger : String → List WalletEntry → Option Wallet → Bool
in_ledger r es none = false
in_ledger r es (some w) = any (has_reference w.id r) es

abbrev pub recorded : ℕ → String → Wallets → Bool
recorded u r t = in_ledger r t.entries (find (owned_by u) t.rows)

any-cons :
    (p : WalletEntry → Bool) (e : WalletEntry) (es : List WalletEntry)
    → any p es ≡ true
    → any p (e ∷ es) ≡ true
any-cons p e es h = ground arith

in_ledger-cons :
    (r : String) (e : WalletEntry) (es : List WalletEntry) (o : Option Wallet)
    → in_ledger r es o ≡ true
    → in_ledger r (e ∷ es) o ≡ true
in_ledger-cons r e es none h = cc
in_ledger-cons r e es (some w) h = any-cons (has_reference w.id r) e es h

-- An UPDATE of balances changes neither the owners nor the ids.
in_ledger-update :
    (r : String) (es : List WalletEntry) (q : Wallet → Bool) (a : Money) (o : Option Wallet)
    → in_ledger r es (Option.map (λ x. if q x then add_money a x else x) o) ≡ in_ledger r es o
in_ledger-update r es q a none = refl
in_ledger-update r es q a (some w) = ap (λ i. any (has_reference i r) es) (ground arith)

module _ (u : ℕ) (ref : String) where
  wallet_for-recorded :
      (v : ℕ) (t : Wallets) → recorded u ref t ≡ true → recorded u ref (wallet_for v t).1 ≡ true
  unfolding wallet_for
  wallet_for-recorded v t h = elim (Option-cases (find (owned_by v) t.rows)) [
    | inl missing ↦ elim (Bool-cases (v == u)) [
      | inl same ↦
          let gone = subst (λ k. find (owned_by k) t.rows ≡ none) ((==_iff v u).0 same) missing in
          cc (rw gone at h)
      | inr other ↦ rw (missing, or_add, other) h
    ]
    | inr (w, e) ↦ rw (e, or_add) h
  ]

  move-recorded :
      (w : Wallet) (k : EntryKind) (a : Money) (r : String) (n : Option String) (b : Bool)
      (t : Wallets)
      → recorded u ref t ≡ true
      → recorded u ref (move w k a r n b t).1 ≡ true
  unfolding move
  move-recorded w k a r n b t h = elim (Option-cases (find (movable w.id a b) t.rows)) [
    | inl short ↦ rw (short, record_movement) h
    | inr (before, f) ↦ elim (Bool-cases (any (has_reference w.id r) t.entries)) [
      | inl used ↦ rw (f, record_movement, used) h
      | inr fresh ↦
          let matches = movable w.id a b in
          rw (f, record_movement, fresh)
            (in_ledger-cons ref (entry_after w k a r n before) t.entries _ (
              ap (in_ledger ref t.entries)
                (find-update_where (owned_by u) matches (add_money a) t.rows (λ x. refl))
              ∙ in_ledger-update ref t.entries matches a (find (owned_by u) t.rows)
              ∙ h))
    ]
  ]

  continue-recorded :
      (res : Result Wallet × Wallets) (f : Wallet → Exec Wallets WalletEntry)
      → recorded u ref res.1 ≡ true
      → ((w : Wallet) (t : Wallets) → recorded u ref t ≡ true → recorded u ref (f w t).1 ≡ true)
      → recorded u ref (continue res f).1 ≡ true
  continue-recorded (ok w, t) f h keep = keep w t h
  continue-recorded (err e, t) f h keep = h

  rollback-recorded :
      (res : Result WalletEntry × Wallets) (t : Wallets)
      → recorded u ref t ≡ true
      → recorded u ref res.1 ≡ true
      → recorded u ref (keep_if_ok t res).1 ≡ true
  rollback-recorded (ok a, t') t old new = new
  rollback-recorded (err e, t') t old new = old

  credit-keeps_recorded :
      (v : ℕ) (x : Decimal) (k : EntryKind) (r : String) (n : Option String) (t : Wallets)
      → recorded u ref t ≡ true
      → recorded u ref (credit v x k r n t).1 ≡ true
  unfolding credit
  credit-keeps_recorded v x k r n t h = elim (Bool-cases (leb_ℤ (as_money x) (pos 0))) [
    | inl refused ↦ rw refused h
    | inr gain ↦ rw gain (
        continue-recorded (wallet_for v t) _ (wallet_for-recorded v t h)
          (λ w t' h'. move-recorded w k (as_money x) r n false t' h'))
  ]

  debit-keeps_recorded :
      (v : ℕ) (x : Decimal) (r : String) (n : Option String) (t : Wallets)
      → recorded u ref t ≡ true
      → recorded u ref (debit v x r n t).1 ≡ true
  unfolding debit
  debit-keeps_recorded v x r n t h = elim (Bool-cases (leb_ℤ (as_money x) (pos 0))) [
    | inl refused ↦ rw refused h
    | inr gain ↦ elim (Option-cases (find (owned_by v) t.rows)) [
      | inl missing ↦ rw (gain, missing, or_not_enough) h
      | inr (w, e) ↦
          rw (gain, e, or_not_enough) (move-recorded w spend (neg (as_money x)) r n true t h)
    ]
  ]

  serve-recorded :
      (q : Request) (t : Wallets) → recorded u ref t ≡ true → recorded u ref (serve q t) ≡ true
  unfolding serve
  serve-recorded (credits v x k r n) t h =
      rollback-recorded (credit v x k r n t) t h (credit-keeps_recorded v x k r n t h)
  serve-recorded (debits v x r n) t h =
      rollback-recorded (debit v x r n t) t h (debit-keeps_recorded v x r n t h)

  run-recorded :
      (qs : List Request) (t : Wallets) → recorded u ref t ≡ true → recorded u ref (run qs t) ≡ true
  unfolding run
  run-recorded [] t h = h
  run-recorded (q ∷ qs) t h = run-recorded qs (serve q t) (serve-recorded q t h)

not_refused : (m : Money) → pos 0 <ℤ m → leb_ℤ m (pos 0) ≡ false
not_refused m h = ground arith

move_used :
    (w : Wallet) (k : EntryKind) (a : Money) (r : String) (n : Option String) (b : Bool)
    (t : Wallets) (before : Wallet)
    → find (movable w.id a b) t.rows ≡ some before
    → any (has_reference w.id r) t.entries ≡ true
    → move w k a r n b t ≡ (err (conflict already_recorded), t)
unfolding move
move_used w k a r n b t before f used = rw (f, record_movement, used)

-- A credit under a reference that the wallet has already is refused and changes nothing.
credit_refused :
    (u : ℕ) (x : Decimal) (k : EntryKind) (r : String) (n : Option String) (t : Wallets)
    → pos 0 <ℤ as_money x
    → recorded u r t ≡ true
    → credit u x k r n t ≡ (err (conflict already_recorded), t)
unfolding credit wallet_for
credit_refused u x k r n t gain h = elim (Option-cases (find (owned_by u) t.rows)) [
  | inl missing ↦ cc (rw missing at h)
  | inr (w, e) ↦
      let used : any (has_reference w.id r) t.entries ≡ true = rw e at h in
      let hit =
        find-hits (owned_by u) (movable w.id (as_money x) false) t.rows w e (rw (==_self w.id)) in
      rw (not_refused (as_money x) gain, e, or_add)
        (move_used w k (as_money x) r n false t hit.0 hit.1 used)
]

in_ledger-here :
    (r : String) (e : WalletEntry) (es : List WalletEntry) (w : Wallet) (o : Option Wallet)
    → o ≡ some w
    → has_reference w.id r e ≡ true
    → in_ledger r (e ∷ es) o ≡ true
in_ledger-here r e es w o same h = rw (same, h)

Moved-recorded :
    (u : ℕ) (w : Wallet) (k : EntryKind) (a : Money) (r : String) (n : Option String) (t : Wallets)
    (e : WalletEntry)
    → find (owned_by u) t.rows ≡ some w
    → Moved w k a r n false t e
    → recorded u r (move w k a r n false t).1 ≡ true
Moved-recorded u w k a r n t e f m =
    let matches = movable w.id a false in
    rw (m.written, m.updated)
      (ap (in_ledger r (e ∷ t.entries))
          (find-update_where (owned_by u) matches (add_money a) t.rows (λ x. refl))
        ∙ in_ledger-update r (e ∷ t.entries) matches a (find (owned_by u) t.rows)
        ∙ in_ledger-here r e t.entries w _ f m.referenced)

-- A credit that went through leaves its reference behind.
credit-recorded :
    (u : ℕ) (x : Decimal) (k : EntryKind) (r : String) (n : Option String) (t : Wallets)
    {e : WalletEntry}
    → (credit u x k r n t).0 ≡ ok e
    → recorded u r (credit u x k r n t).1 ≡ true
unfolding credit wallet_for
credit-recorded u x k r n t {e} done = elim (Bool-cases (leb_ℤ (as_money x) (pos 0))) [
  | inl refused ↦ cc (rw refused at done)
  | inr gain ↦ elim (Option-cases (find (owned_by u) t.rows)) [
    | inl missing ↦
        let w : Wallet = record { id = t.next_id; user_id = u; balance_inr = pos 0 } in
        let t' = record t { rows = w ∷ t.rows; next_id = t.next_id + 1 } in
        rw (gain, missing, or_add)
          (Moved-recorded u w k (as_money x) r n t' e (rw (==_self u))
            (move-Moved w k (as_money x) r n false t' e (rw (gain, missing, or_add) at done)))
    | inr (w, f) ↦
        rw (gain, f, or_add)
          (Moved-recorded u w k (as_money x) r n t e f
            (move-Moved w k (as_money x) r n false t e (rw (gain, f, or_add) at done)))
  ]
]

-- Once a credit under a reference has gone through, then after any other requests a credit under
-- that reference to the same user, of any amount that comes to more than nothing when it is rounded
-- to paise, is refused as already recorded, and changes nothing.
pub credit_once :
    (u : ℕ) (x y : Decimal) (k l : EntryKind) (r : String) (n m : Option String) (t : Wallets)
    (qs : List Request) {e : WalletEntry}
    → (credit u x k r n t).0 ≡ ok e
    → pos 0 <ℤ as_money y
    → let t' = run qs (credit u x k r n t).1 in
      credit u y l r m t' ≡ (err (conflict already_recorded), t')
credit_once u x y k l r n m t qs done gain =
    credit_refused u y l r m _ gain (run-recorded u r qs _ (credit-recorded u x k r n t done))
