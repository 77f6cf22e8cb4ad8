-- ===== src/Kiosks/Paper/Changes.antt =====
-- What each change of a tray does to the sheets that are left in it.
use printvendo_backend.Prelude.{
  ==_iff, Bool-cases, get_or, length, find, update_where, ℤ, pos, ◌+ℤ◌, ◌-ℤ◌, ◌≤ℤ◌, ◌<ℤ◌, ltb_ℤ,
  max_ℤ, +ℤ_parts, -ℤ_parts, eq_of_parts, int_laws, le_leb_ℤ, sheets_negative, bad_request, Result,
  ok, err, ok-injective, keep_if_ok, transaction, ℕ, ◌+◌, String, ◌≡◌, refl, sym, ap, ◌∙◌, subst,
  ◌⊎◌, inl, inr, true, false, Option, none, some, List, [], ◌∷◌, arith,
}
use printvendo_backend.Kiosks.Paper.{
  KioskPaper, Trays, paper_at, paper_of, left_in, sheets_remaining, when_set, when_printed,
  set_sized, set_paper, consume_paper,
}
use printvendo_backend.Kiosks.Paper.Bounds.{IsTray, AreTrays, Reads, paper_of-Reads, when_set-kiosk}

-- The sheets that a kiosk has left, as `sheets_remaining` answers.
abbrev pub left_at : ℕ → Trays → Result ℤ
left_at k s = (sheets_remaining k s).0

find-save :
    (k : ℕ) (w : KioskPaper) (ps : List KioskPaper) {p : KioskPaper}
    → paper_at k w ≡ true
    → find (paper_at k) ps ≡ some p
    → find (paper_at k) (update_where (paper_at k) (λ _. w) ps) ≡ some w
find-save k w [] e h = cc
find-save k w (x ∷ xs) e h = elim (Bool-cases (paper_at k x)) [
  | inl hit ↦ rw (hit, e) refl
  | inr miss ↦ rw (miss, miss) (find-save k w xs e (rw miss at h))
]

-- A tray that has just been written is the one that is read.
left_at-found :
    (k : ℕ) (s : Trays) {w : KioskPaper}
    → find (paper_at k) s.papers ≡ some w
    → left_at k s ≡ ok (left_in w)
unfolding sheets_remaining paper_of
left_at-found k s h = rw (h, left_at) refl

left_at-read :
    (k : ℕ) (s s' : Trays) (p : KioskPaper) → Reads k s p s' → left_at k s ≡ ok (left_in p)
unfolding sheets_remaining
left_at-read k s s' p r = rw (left_at, r.gives) refl

left_of_tray : (p : KioskPaper) → IsTray p → left_in p ≡ p.capacity -ℤ p.used
left_of_tray p i =
    rw (le_leb_ℤ (pos 0) (p.capacity -ℤ p.used) (let above = i.not_above in omega int_laws)) refl

printed_left :
    (p : KioskPaper) (n : ℤ)
    → IsTray p
    → ltb_ℤ n (pos 0) ≡ false
    → left_in (when_printed p n) ≡ max_ℤ (pos 0) (left_in p -ℤ n)
printed_left p n i h =
    let above = i.not_above in
    rw (left_of_tray p i) (
      ground (
        arith,
        +ℤ_parts p.used n,
        -ℤ_parts p.capacity p.used,
        -ℤ_parts p.capacity p.capacity,
        -ℤ_parts p.capacity (p.used +ℤ n),
        -ℤ_parts (p.capacity -ℤ p.used) n,
        eq_of_parts (p.capacity -ℤ p.capacity) (pos 0),
        eq_of_parts (p.capacity -ℤ (p.used +ℤ n)) (p.capacity -ℤ p.used -ℤ n),
        eq_of_parts (p.capacity -ℤ p.used -ℤ n) (pos 0),
      ))

find-written :
    (k : ℕ) (s : Trays) (w : KioskPaper) {q : KioskPaper}
    → w.kiosk_id ≡ k
    → find (paper_at k) s.papers ≡ some q
    → find (paper_at k) (update_where (paper_at w.kiosk_id) (λ _. w) s.papers) ≡ some w
find-written k s w e row =
    subst (λ i. find (paper_at k) (update_where (paper_at i) (λ _. w) s.papers) ≡ some w) (sym e)
      (find-save k w s.papers ((==_iff w.kiosk_id k).1 e) row)

-- Where every tray is between empty and full, a print that used `n` sheets, as its device
-- reported, or else as was predicted, leaves `n` sheets fewer in the tray, and none when it used
-- more than there were. The answer of `consume_paper` is what `sheets_remaining` says afterwards,
-- and one row is added to the log. A negative report is refused and changes nothing.
pub consume_paper_left :
    (k : ℕ) (predicted : ℤ) (actual : Option ℤ) (reference : Option String) (s : Trays)
    → AreTrays s
    → let n = get_or actual predicted in
      let (answer, s') = transaction (consume_paper k predicted actual reference) s in
      ((n <ℤ pos 0) × (answer ≡ err (bad_request sheets_negative)) × (s' ≡ s))
      ⊎ ((before : ℤ) × (pos 0 ≤ℤ n)
          × (left_at k s ≡ ok before)
          × (answer ≡ ok (max_ℤ (pos 0) (before -ℤ n)))
          × (left_at k s' ≡ answer)
          × (length s'.log ≡ length s.log + 1))
unfolding consume_paper
consume_paper_left k predicted actual reference s h =
    elim (Bool-cases (ltb_ℤ (get_or actual predicted) (pos 0))) [
      | inl less ↦ inl (ground arith, rw less refl, rw less refl)
      | inr fine ↦
          let (p, s', r) = paper_of-Reads k s in
          let n = get_or actual predicted in
          inr (
            left_in p,
            ground arith,
            left_at-read k s s' p r,
            rw (fine, r.gives) (ap ok (printed_left p n (r.is_tray h) fine)),
            rw (fine, r.gives)
                (left_at-found k _ (find-written k s' (when_printed p n) r.kiosk r.row)),
            rw (fine, r.gives, r.log_kept) (omega arith),
          )
    ]

full_left : (c n : ℤ) → ltb_ℤ n (pos 0) ≡ false → max_ℤ (pos 0) (c -ℤ (c -ℤ n)) ≡ n
full_left c n h = ground (arith, -ℤ_parts c n, -ℤ_parts c (c -ℤ n), eq_of_parts (c -ℤ (c -ℤ n)) n)

when_set_left :
    (p : KioskPaper) (old new : ℤ) → ltb_ℤ new (pos 0) ≡ false → left_in (when_set p old new) ≡ new
when_set_left p old new h = elim (Bool-cases (ltb_ℤ old new)) [
  | inl more ↦ rw more (full_left p.capacity new h)
  | inr less ↦ rw less (full_left p.capacity new h)
]

-- What the end of `set_paper` answers is what the tray then holds.
set_sized_left :
    (k : ℕ) (p sized : KioskPaper) (left : Option ℤ) (a : Option ℕ) (text : Option String)
    (s s' : Trays) (n : ℤ) {q : KioskPaper}
    → sized.kiosk_id ≡ k
    → find (paper_at k) s'.papers ≡ some q
    → (keep_if_ok s (set_sized p sized left a text s')).0 ≡ ok n
    → (n ≡ get_or left (left_in p))
      × (pos 0 ≤ℤ n)
      × (left_at k (keep_if_ok s (set_sized p sized left a text s')).1 ≡ ok n)
unfolding set_sized
set_sized_left k p sized left a text s s' n e row g =
    elim (Bool-cases (ltb_ℤ (get_or left (left_in p)) (pos 0))) [
      | inl negative ↦ absurd (cc (rw negative at g))
      | inr some_left ↦ elim (Bool-cases (ltb_ℤ sized.capacity (get_or left (left_in p)))) [
        | inl too_many ↦ absurd (cc (rw (some_left, too_many) at g))
        | inr fits ↦
            let new = get_or left (left_in p) in
            let written = when_set sized (left_in p) new in
            let answer : ok new ≡ ok n = rw (some_left, fits) at g in
            let same_n = ok-injective new n answer in
            (
              sym same_n,
              ground arith,
              rw (some_left, fits)
                  (left_at-found k _
                      (find-written k s' written (when_set-kiosk sized (left_in p) new ∙ e) row)
                    ∙ ap ok (when_set_left sized (left_in p) new some_left)
                    ∙ answer),
            )
      ]
    ]

-- When `set_paper` accepts, its answer is the sheets that it was told are left, or else, when only
-- the size of the tray was given, the sheets that were left before: resizing a tray adds and removes
-- no paper. It is never negative, and it is what `sheets_remaining` says afterwards.
pub set_paper_left :
    (k : ℕ) (capacity left : Option ℤ) (actor : Option ℕ) (text : Option String) (s : Trays) (n : ℤ)
    → let (answer, s') = transaction (set_paper k capacity left actor text) s in
      answer ≡ ok n
      → (before : ℤ) × (left_at k s ≡ ok before)
        × (n ≡ get_or left before)
        × (pos 0 ≤ℤ n)
        × (left_at k s' ≡ ok n)
unfolding set_paper
set_paper_left k none none actor text s n h = absurd (cc)
set_paper_left k none (some m) actor text s n h =
    let (p, s', r) = paper_of-Reads k s in
    let e = set_sized_left k p p (some m) actor text s s' n r.kiosk r.row (rw r.gives at h) in
    (left_in p, left_at-read k s s' p r, e.0, e.1, rw r.gives e.2)
set_paper_left k (some c) left actor text s n h = elim (Bool-cases (ltb_ℤ c (pos 1))) [
  | inl small ↦ let (p, s', r) = paper_of-Reads k s in absurd (cc (rw (r.gives, small) at h))
  | inr fine ↦
      let (p, s', r) = paper_of-Reads k s in
      let sized = record p { capacity = c } in
      let resized_table = record s' {
        papers = update_where (paper_at p.kiosk_id) (λ _. sized) s'.papers;
      } in
      let e =
        set_sized_left k p sized left actor text s resized_table n r.kiosk
          (find-written k s' sized r.kiosk r.row) (rw (r.gives, fine) at h) in
      (left_in p, left_at-read k s s' p r, e.0, e.1, rw (r.gives, fine) e.2)
]
