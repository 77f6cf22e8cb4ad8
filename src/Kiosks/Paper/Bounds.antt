-- ===== src/Kiosks/Paper/Bounds.antt =====
-- How full a tray is.
use printvendo_backend.Prelude.{
  ==_iff, ==_self, Bool-cases, Option-cases, get_or, find, update_where, All, find-All, find-hit, ℤ,
  pos, ◌≤ℤ◌, ltb_ℤ, +ℤ_parts, -ℤ_parts, ok, keep_if_ok, transaction, ℕ, String, ◌≡◌, refl, sym,
  subst, inl, inr, Bool, true, false, Option, none, some, List, [], ◌∷◌, arith,
}
use printvendo_backend.Kiosks.Paper.{
  KioskPaper, Trays, paper_at, new_paper, paper_of, left_in, when_reset, when_set, when_printed,
  reset_paper, set_sized, set_paper, mark_out_of_paper, consume_paper, Change, resets, sets,
  empties, consumes, change, run_changes,
}

-- A tray holds at least one sheet, and between none and all of it is used.
pub record IsTray (p : KioskPaper) : Type 0 where
  pub some_room : pos 1 ≤ℤ p.capacity
  pub not_below : pos 0 ≤ℤ p.used
  pub not_above : p.used ≤ℤ p.capacity

abbrev pub AreTrays : Trays → Type 0
AreTrays s = All IsTray s.papers

new_paper-IsTray : (k : ℕ) → IsTray (new_paper k)
new_paper-IsTray k = record {
  some_room = omega arith;
  not_below = omega arith;
  not_above = omega arith;
}

-- What reading a tray gives: a row of its kiosk, which is in the table now, and no log row.
pub record Reads (k : ℕ) (s : Trays) (p : KioskPaper) (s' : Trays) : Type 0 where
  pub gives : paper_of k s ≡ (ok p, s')
  pub row : find (paper_at k) s'.papers ≡ some p
  pub kiosk : p.kiosk_id ≡ k
  pub is_tray : AreTrays s → IsTray p
  pub are_trays : AreTrays s → AreTrays s'
  pub log_kept : s'.log ≡ s.log

pub paper_of-Reads : (k : ℕ) (s : Trays) → (p : KioskPaper) × (s' : Trays) × Reads k s p s'
unfolding paper_of
paper_of-Reads k s = elim (Option-cases (find (paper_at k) s.papers)) [
  | inl missing ↦ (
    new_paper k,
    record s { papers = new_paper k ∷ s.papers },
    record {
      gives = rw missing refl;
      row = rw (==_self k) refl;
      kiosk = refl;
      is_tray = λ _. new_paper-IsTray k;
      are_trays = λ h. (new_paper-IsTray k, h);
      log_kept = refl;
    },
  )
  | inr (p, e) ↦ (
    p,
    s,
    record {
      gives = rw e refl;
      row = e;
      kiosk = (==_iff p.kiosk_id k).0 (find-hit (paper_at k) s.papers p e);
      is_tray = λ h. (find-All IsTray (paper_at k) s.papers p h e).0;
      are_trays = λ h. h;
      log_kept = refl;
    },
  )
]

-- Writing a row that is a tray.
pub All-save :
    (q : KioskPaper → Bool) (p : KioskPaper) (ps : List KioskPaper)
    → IsTray p
    → All IsTray ps
    → All IsTray (update_where q (λ _. p) ps)
All-save q p [] i h = tt
All-save q p (x ∷ xs) i h = elim (Bool-cases (q x)) [
  | inl hit ↦ rw hit (i, All-save q p xs i h.1)
  | inr miss ↦ rw miss (h.0, All-save q p xs i h.1)
]

when_reset-IsTray : (p : KioskPaper) → IsTray p → IsTray (when_reset p)
when_reset-IsTray p i =
    let room = i.some_room in
    record { some_room = room; not_below = omega arith; not_above = omega arith }

when_printed-IsTray :
    (p : KioskPaper) (n : ℤ) → ltb_ℤ n (pos 0) ≡ false → IsTray p → IsTray (when_printed p n)
when_printed-IsTray p n h i =
    let below = i.not_below in
    let above = i.not_above in
    record {
      some_room = i.some_room;
      not_below = ground (arith, +ℤ_parts p.used n);
      not_above = ground (arith, +ℤ_parts p.used n);
    }

when_set-IsTray :
    (p : KioskPaper) (old new : ℤ)
    → pos 1 ≤ℤ p.capacity
    → ltb_ℤ new (pos 0) ≡ false
    → ltb_ℤ p.capacity new ≡ false
    → IsTray (when_set p old new)
when_set-IsTray p old new room low high = elim (Bool-cases (ltb_ℤ old new)) [
  | inl more ↦ rw more (record {
    some_room = room;
    not_below = ground (arith, -ℤ_parts p.capacity new);
    not_above = ground (arith, -ℤ_parts p.capacity new);
  })
  | inr less ↦ rw less (record {
    some_room = room;
    not_below = ground (arith, -ℤ_parts p.capacity new);
    not_above = ground (arith, -ℤ_parts p.capacity new);
  })
]

reset_paper-AreTrays :
    (k : ℕ) (a : Option ℕ) (s : Trays) → AreTrays s → AreTrays (transaction (reset_paper k a) s).1
unfolding reset_paper
reset_paper-AreTrays k a s h =
    let (p, s', r) = paper_of-Reads k s in
    rw r.gives (
      All-save (paper_at p.kiosk_id) (when_reset p) s'.papers (when_reset-IsTray p (r.is_tray h))
        (r.are_trays h))

consume_paper-AreTrays :
    (k : ℕ) (n : ℤ) (a : Option ℤ) (reference : Option String) (s : Trays)
    → AreTrays s
    → AreTrays (transaction (consume_paper k n a reference) s).1
unfolding consume_paper
consume_paper-AreTrays k n a reference s h = elim (Bool-cases (ltb_ℤ (get_or a n) (pos 0))) [
  | inl less ↦ rw less h
  | inr fine ↦
      let (p, s', r) = paper_of-Reads k s in
      rw (fine, r.gives)
        (All-save (paper_at p.kiosk_id) (when_printed p (get_or a n)) s'.papers
          (when_printed-IsTray p (get_or a n) fine (r.is_tray h)) (r.are_trays h))
]

-- A row that is written twice keeps nothing of the first time.
All-save_twice :
    (k : ℕ) (v w : KioskPaper) (ps : List KioskPaper)
    → paper_at k v ≡ true
    → IsTray w
    → All IsTray ps
    → All IsTray (update_where (paper_at k) (λ _. w) (update_where (paper_at k) (λ _. v) ps))
All-save_twice k v w [] e i h = tt
All-save_twice k v w (x ∷ xs) e i h = elim (Bool-cases (paper_at k x)) [
  | inl hit ↦ rw (hit, e) (i, All-save_twice k v w xs e i h.1)
  | inr miss ↦ rw (miss, miss) (h.0, All-save_twice k v w xs e i h.1)
]

pub when_set-kiosk : (p : KioskPaper) (old new : ℤ) → (when_set p old new).kiosk_id ≡ p.kiosk_id
when_set-kiosk p old new = elim (Bool-cases (ltb_ℤ old new)) [
  | inl more ↦ rw more refl
  | inr less ↦ rw less refl
]

-- The end of `set_paper`, once the tray has the size that was asked for. The other rows are trays.
set_sized-AreTrays :
    (p sized : KioskPaper) (left : Option ℤ) (a : Option ℕ) (text : Option String) (s s' : Trays)
    → pos 1 ≤ℤ sized.capacity
    → AreTrays s
    → ((w : KioskPaper)
        → IsTray w
        → All IsTray (update_where (paper_at sized.kiosk_id) (λ _. w) s'.papers))
    → AreTrays (keep_if_ok s (set_sized p sized left a text s')).1
unfolding set_sized
set_sized-AreTrays p sized left a text s s' room h h' =
    elim (Bool-cases (ltb_ℤ (get_or left (left_in p)) (pos 0))) [
      | inl negative ↦ rw negative h
      | inr some_left ↦ elim (Bool-cases (ltb_ℤ sized.capacity (get_or left (left_in p)))) [
        | inl too_many ↦ rw (some_left, too_many) h
        | inr fits ↦
            let written = when_set sized (left_in p) (get_or left (left_in p)) in
            rw (some_left, fits)
              (subst (λ i. All IsTray (update_where (paper_at i) (λ _. written) s'.papers))
                (sym (when_set-kiosk sized (left_in p) (get_or left (left_in p))))
                (h' written (
                  when_set-IsTray sized (left_in p) (get_or left (left_in p)) room some_left fits)))
      ]
    ]

set_paper-AreTrays :
    (k : ℕ) (c left : Option ℤ) (a : Option ℕ) (text : Option String) (s : Trays)
    → AreTrays s
    → AreTrays (transaction (set_paper k c left a text) s).1
unfolding set_paper
set_paper-AreTrays k none none a text s h = h
set_paper-AreTrays k none (some n) a text s h =
    let (p, s', r) = paper_of-Reads k s in
    rw r.gives (
      set_sized-AreTrays p p (some n) a text s s' (r.is_tray h).some_room h
        (λ w i. All-save (paper_at p.kiosk_id) w s'.papers i (r.are_trays h)))
set_paper-AreTrays k (some c) left a text s h = elim (Bool-cases (ltb_ℤ c (pos 1))) [
  | inl small ↦ let (p, s', r) = paper_of-Reads k s in rw (r.gives, small) h
  | inr fine ↦
      let (p, s', r) = paper_of-Reads k s in
      let sized = record p { capacity = c } in
      let room : pos 1 ≤ℤ c = ground arith in
      rw (r.gives, fine)
        (set_sized-AreTrays p sized left a text s
          (record s' { papers = update_where (paper_at p.kiosk_id) (λ _. sized) s'.papers }) room h
          (λ w i.
            All-save_twice p.kiosk_id sized w s'.papers (==_self p.kiosk_id) i (r.are_trays h)))
]

change-AreTrays : (k : ℕ) (c : Change) (s : Trays) → AreTrays s → AreTrays (change k c s).1
unfolding change mark_out_of_paper
change-AreTrays k (resets a) s h = reset_paper-AreTrays k a s h
change-AreTrays k (sets c left a text) s h = set_paper-AreTrays k c left a text s h
change-AreTrays k (empties a) s h =
    set_paper-AreTrays k none (some (pos 0)) a (some "reported empty") s h
change-AreTrays k (consumes n a text) s h = consume_paper-AreTrays k n a text s h

-- Through any resets, settings, reports of an empty tray and prints, at any kiosks, accepted or
-- refused, every tray keeps at least one sheet of room, and what is used of it stays between
-- nothing and all of it, when that was so at the start.
pub run_changes-AreTrays :
    (cs : List (ℕ × Change)) (s : Trays) → AreTrays s → AreTrays (run_changes cs s)
unfolding run_changes
run_changes-AreTrays [] s h = h
run_changes-AreTrays ((k, c) ∷ cs) s h =
    run_changes-AreTrays cs (change k c s).1 (change-AreTrays k c s h)
