-- ===== src/RateLimit/Retry.antt =====
-- A client that waits as long as it was told to.
use native.Mathlib.Nat.{mul-le-mul_right}
use printvendo_backend.Prelude.{
  ltb, leb, Bool-cases, find, All, All-map, ℕ, ◌+◌, ◌-◌, ◌*◌, ◌/◌, ◌≤◌, ◌<◌, max, String, ◌≡◌, refl,
  ap, ◌∙◌, subst, inl, inr, Bool, true, false, none, List, [], ◌∷◌, arith, str_eq,
}
use printvendo_backend.RateLimit.{
  let_through, Bucket, Counted, same_bucket, window_of, sweep, hits_of, count_in, Hit, bucket_of,
  hit, run_hits,
}
use printvendo_backend.RateLimit.Allowance.{HaveWindows}
use printvendo_backend.RateLimit.Windows.{
  width, ends, IsKept, AreKept, same_bucket-≡, in_window, kept-filter, kept_later, count_in-sweep,
  count_in-put, hit-AreKept,
}

find-nothing :
    (q : Counted → Bool) (counts : List Counted)
    → All (λ c. q c ≡ false) counts
    → find q counts ≡ none
find-nothing q [] k = refl
find-nothing q (c ∷ counts) k = rw k.0 (find-nothing q counts k.1)

-- A window that has not begun has no count.
future_empty :
    (b : Bucket) (now : ℕ) (counts : List Counted)
    → now < b.index * width b
    → AreKept now counts
    → count_in b counts ≡ 0
future_empty b now counts l k = ap hits_of (
    find-nothing (λ c. same_bucket c.bucket b) counts
      (All-map (IsKept now) (λ c. same_bucket c.bucket b ≡ false) counts (λ c h. apart c h) k))
  where
    apart : (c : Counted) → IsKept now c → same_bucket c.bucket b ≡ false
    apart c h = elim (Bool-cases (same_bucket c.bucket b)) [
      | inr other ↦ other
      | inl own ↦
          let same = same_bucket-≡ c.bucket b own in
          let start : c.bucket.index * width c.bucket ≡ b.index * width b =
            ap (λ z. z.index * width z) same in
          let begun = h.started in absurd (omega arith)
    ]

-- The wait ends where the window does, or behind it.
waits_enough :
    (now end w : ℕ)
    → now < end
    → end ≤ now + 1000 * w
    → let wait = max 1 ((end - now + 999) / 1000) in
      (end ≤ now + 1000 * wait) × (1 ≤ wait) × (wait ≤ w)
waits_enough now end w l u = (omega arith, omega arith, omega arith)

-- A moment from the end of a window on falls in a later window, which begins after the window's end.
next_window : (i j w t : ℕ) → (i + 1) * w ≤ t → t < (j + 1) * w → (i + 1) * w ≤ j * w
next_window i j w t l u = elim (Bool-cases (leb (i + 1) j)) [
  | inl beyond ↦ mul-le-mul_right {m = i + 1} {n = j} w (ground arith)
  | inr within ↦
      let less : j + 1 ≤ i + 1 = ground arith in
      let no : (j + 1) * w ≤ (i + 1) * w = mul-le-mul_right {m = j + 1} {n = i + 1} w less in
      absurd (omega arith)
]

-- How long requests take, one after another.
abbrev pub elapsed : List (ℕ × Hit) → ℕ
elapsed [] = 0
elapsed (h ∷ hs) = h.0 + elapsed hs

-- Requests of other keys.
abbrev pub AreOthers : String → List (ℕ × Hit) → Type 0
AreOthers key hs = All (λ h. str_eq h.1.key key ≡ false) hs

-- A request of another key leaves the count of a window that has not ended.
count_in-hit :
    (b : Bucket) (h : Hit) (at : ℕ) (counts : List Counted)
    → AreKept at counts
    → at < ends b
    → str_eq h.key b.key ≡ false
    → count_in b (hit h at counts).1 ≡ count_in b counts
unfolding hit
count_in-hit b h at counts k l other =
    let kept = count_in-sweep b at counts l k in
    elim (Bool-cases (leb h.limit (count_in (bucket_of h at) (sweep at counts)))) [
      | inl full ↦ rw full kept
      | inr free ↦
          let row : Counted = record {
            bucket = bucket_of h at;
            hits = count_in (bucket_of h at) (sweep at counts) + 1;
            ends_at = (window_of at h.window_seconds).1;
          } in
          rw free (count_in-put b row (sweep at counts) (rw other refl) ∙ kept)
    ]

-- So requests of other keys leave it, and their store is kept.
run_hits-quiet :
    (b : Bucket) (hs : List (ℕ × Hit)) (now : ℕ) (counts : List Counted)
    → HaveWindows hs
    → AreOthers b.key hs
    → AreKept now counts
    → now + elapsed hs < ends b
    → AreKept (now + elapsed hs) (run_hits hs now counts)
      × (count_in b (run_hits hs now counts) ≡ count_in b counts)
unfolding run_hits
run_hits-quiet b [] now counts w o k l = (kept_later now (now + 0) counts (omega arith) k, refl)
run_hits-quiet b (h ∷ hs) now counts w o k l =
    let at = now + h.0 in
    let here = kept_later now at counts (omega arith) k in
    let rest =
      run_hits-quiet b hs at (hit h.1 at counts).1 w.1 o.1 (hit-AreKept h.1 at counts w.0 here)
        (omega arith) in
    let sooner : at + elapsed hs ≡ now + (h.0 + elapsed hs) = omega arith in
    (
      subst (λ t. AreKept t (run_hits hs at (hit h.1 at counts).1)) sooner rest.0,
      rest.1 ∙ count_in-hit b h.1 at counts here (omega arith) o.0,
    )

-- For a limit that is not nothing and a window of a second or more, and from a store whose counts are
-- of windows that have begun and each end when its window does: a refusal says to wait a second or
-- more, and no longer than the window; and a caller who comes back after that wait is let through,
-- whatever requests of other keys, with windows of a second or more, have come in between.
pub retry_succeeds :
    (h : Hit) (now : ℕ) (counts : List Counted) (hs : List (ℕ × Hit))
    → 0 < h.window_seconds
    → 0 < h.limit
    → AreKept now counts
    → (hit h now counts).0.allowed ≡ false
    → HaveWindows hs
    → AreOthers h.key hs
    → elapsed hs ≤ 1000 * (hit h now counts).0.retry_after
    → let wait = (hit h now counts).0.retry_after in
      (1 ≤ wait)
      × (wait ≤ h.window_seconds)
      × ((hit h (now + 1000 * wait) (run_hits hs now (hit h now counts).1)).0 ≡ let_through)
unfolding hit
retry_succeeds h now counts hs w positive k refused windows others soon =
    elim (Bool-cases (leb h.limit (count_in (bucket_of h now) (sweep now counts)))) [
      | inr free ↦ let no : true ≡ false = rw free at refused in absurd cc
      | inl full ↦
          let inside = in_window h now w in
          let end = (window_of now h.window_seconds).1 in
          let waits = waits_enough now end h.window_seconds inside.1 (omega arith) in
          let wait = max 1 ((end - now + 999) / 1000) in
          let t = now + 1000 * wait in
          let later = bucket_of h t in
          let within : elapsed hs ≤ 1000 * wait = rw full at soon in
          let begins : end ≤ later.index * width later =
            next_window (bucket_of h now).index later.index (1000 * h.window_seconds) t waits.0
              (in_window h t w).1 in
          let swept = kept-filter now (λ c. ltb now c.ends_at) counts k in
          let quiet =
            run_hits-quiet later hs now (sweep now counts) windows others swept
              (let last = (in_window h t w).1 in omega arith) in
          let store = run_hits hs now (sweep now counts) in
          let kept = kept_later (now + elapsed hs) t store (omega arith) quiet.0 in
          let empty : count_in later (sweep t store) ≡ 0 =
            count_in-sweep later t store (in_window h t w).1 kept
            ∙ quiet.1
            ∙ future_empty later now (sweep now counts) (omega arith) swept in
          let room : leb h.limit 0 ≡ false = ground arith in
          rw full (waits.1, waits.2, rw (empty, room) refl)
    ]
