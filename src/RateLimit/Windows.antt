-- ===== src/RateLimit/Windows.antt =====
-- What the store holds of a window, and until when.
use native.Mathlib.Nat.{div-mul-le_self, lt-div-mul-add}
use printvendo_backend.Prelude.{
  ltb, leb, ◌==◌, ==_self, Bool-cases, filter, find, All, All-map, ℕ, ◌+◌, ◌*◌, ◌≤◌, ◌<◌, ◌≡◌, refl,
  ap, ◌∙◌, inl, inr, Bool, true, false, not, ◌&&◌, List, [], ◌∷◌, arith, str_eq, eq_iff, eq_refl,
}
use printvendo_backend.RateLimit.{
  Bucket, Counted, same_bucket, sweep, hits_of, put, count_in, Hit, bucket_of, hit,
}

-- The length of a window, when it starts and when it ends.
abbrev pub width : Bucket → ℕ
width b = 1000 * b.window_seconds

abbrev pub ends : Bucket → ℕ
ends b = (b.index + 1) * width b

-- A count of a window that has started, with its end.
pub record IsKept (now : ℕ) (c : Counted) : Type 0 where
  pub ends_then : c.ends_at ≡ ends c.bucket
  pub started : c.bucket.index * width c.bucket ≤ now

abbrev pub AreKept : ℕ → List Counted → Type 0
AreKept now counts = All (IsKept now) counts

pub same_bucket-≡ : (a b : Bucket) → same_bucket a b ≡ true → a ≡ b
same_bucket-≡ a b h = elim (Bool-cases (str_eq a.key b.key)) [
  | inr other ↦ let no : false ≡ true = rw other at h in absurd cc
  | inl own ↦
      let key : a.key ≡ b.key = (eq_iff a.key b.key).0 own in
      let rest : (a.window_seconds == b.window_seconds && a.index == b.index) ≡ true =
        rw own at h in
      let window : a.window_seconds ≡ b.window_seconds = ground arith in
      let index : a.index ≡ b.index = ground arith in cc
]

pub same_bucket_self : (b : Bucket) → same_bucket b b ≡ true
same_bucket_self b = rw (eq_refl b.key, ==_self b.window_seconds, ==_self b.index) refl

-- A moment is in the window that it falls in.
pub in_window :
    (h : Hit) (now : ℕ)
    → 0 < h.window_seconds
    → ((bucket_of h now).index * width (bucket_of h now) ≤ now) × (now < ends (bucket_of h now))
in_window h now w =
    let low = div-mul-le_self now (1000 * h.window_seconds) in
    let high = lt-div-mul-add {a = now} {b = 1000 * h.window_seconds} (omega arith) in
    (omega arith, omega arith)

pub kept-filter :
    (now : ℕ) (p : Counted → Bool) (counts : List Counted)
    → AreKept now counts
    → AreKept now (filter p counts)
kept-filter now p [] k = tt
kept-filter now p (c ∷ counts) k = elim (Bool-cases (p c)) [
  | inl stays ↦ rw stays (k.0, kept-filter now p counts k.1)
  | inr goes ↦ rw goes (kept-filter now p counts k.1)
]

pub kept_later :
    (now later : ℕ) (counts : List Counted)
    → now ≤ later
    → AreKept now counts
    → AreKept later counts
kept_later now later counts l k =
    All-map (IsKept now) (IsKept later) counts
      (λ c h. let begun = h.started in record { ends_then = h.ends_then; started = omega arith }) k

-- A row that a filter keeps is found behind it.
find-kept :
    (q p : Counted → Bool) (counts : List Counted)
    → All (λ c. (q c && not (p c)) ≡ false) counts
    → find q (filter p counts) ≡ find q counts
find-kept q p [] k = refl
find-kept q p (c ∷ counts) k =
    let rest = find-kept q p counts k.1 in
    elim (Bool-cases (p c)) [
      | inl stays ↦ elim (Bool-cases (q c)) [
        | inl hit ↦ rw (stays, hit) refl
        | inr miss ↦ rw (stays, miss) rest
      ]
      | inr goes ↦ elim (Bool-cases (q c)) [
        | inl hit ↦ let no : true ≡ false = rw (hit, goes) at k.0 in absurd cc
        | inr miss ↦ rw (goes, miss) rest
      ]
    ]

-- The count of a window that has not ended outlives the sweep.
pub count_in-sweep :
    (b : Bucket) (now : ℕ) (counts : List Counted)
    → now < ends b
    → AreKept now counts
    → count_in b (sweep now counts) ≡ count_in b counts
count_in-sweep b now counts l k = ap hits_of (
    find-kept (λ c. same_bucket c.bucket b) (λ c. ltb now c.ends_at) counts
      (All-map (IsKept now) (λ c. (same_bucket c.bucket b && not (ltb now c.ends_at)) ≡ false)
        counts (λ c h. alive c h) k))
  where
    alive :
        (c : Counted) → IsKept now c → (same_bucket c.bucket b && not (ltb now c.ends_at)) ≡ false
    alive c h = elim (Bool-cases (same_bucket c.bucket b)) [
      | inr other ↦ rw other refl
      | inl own ↦
          let same = same_bucket-≡ c.bucket b own in
          let end : c.ends_at ≡ ends b = h.ends_then ∙ ap ends same in
          let ahead : ltb now c.ends_at ≡ true = ground arith in rw (own, ahead) refl
    ]

-- Another window's count is not touched.
pub count_in-put :
    (b : Bucket) (c : Counted) (counts : List Counted)
    → same_bucket c.bucket b ≡ false
    → count_in b (put c counts) ≡ count_in b counts
count_in-put b c counts other = rw other (
    ap hits_of (
      find-kept (λ d. same_bucket d.bucket b) (λ d. not (same_bucket d.bucket c.bucket)) counts
        (all_true counts)))
  where
    all_true :
        (ds : List Counted)
        → All
            (λ d. (same_bucket d.bucket b && not (not (same_bucket d.bucket c.bucket))) ≡ false)
            ds
    all_true [] = tt
    all_true (d ∷ ds) = (apart d, all_true ds)
      where
        apart :
            (d : Counted)
            → (same_bucket d.bucket b && not (not (same_bucket d.bucket c.bucket))) ≡ false
        apart d = elim (Bool-cases (same_bucket d.bucket c.bucket)) [
          | inl own ↦
              let same = same_bucket-≡ d.bucket c.bucket own in
              let no : same_bucket d.bucket b ≡ false = ap (λ z. same_bucket z b) same ∙ other in
              rw no refl
          | inr far ↦ rw far (ground arith)
        ]

-- What a hit leaves is kept as well.
pub hit-AreKept :
    (h : Hit) (now : ℕ) (counts : List Counted)
    → 0 < h.window_seconds
    → AreKept now counts
    → AreKept now (hit h now counts).1
unfolding hit
hit-AreKept h now counts w k =
    let swept = kept-filter now (λ c. ltb now c.ends_at) counts k in
    elim (Bool-cases (leb h.limit (count_in (bucket_of h now) (sweep now counts)))) [
      | inl full ↦ rw full swept
      | inr free ↦ rw free (
        record { ends_then = refl; started = (in_window h now w).0 },
        kept-filter now (λ d. not (same_bucket d.bucket (bucket_of h now))) (sweep now counts)
            swept,
      )
    ]
