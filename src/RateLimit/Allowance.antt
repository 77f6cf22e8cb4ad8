-- ===== src/RateLimit/Allowance.antt =====
-- How many requests are let through in a window.
use printvendo_backend.Prelude.{
  leb, if◌then◌else◌, Bool-cases, All, count, ℕ, ◌+◌, ◌≤◌, ◌<◌, max, ◌≡◌, refl, ap, ◌∙◌, ◌⊎◌, inl,
  inr, Bool, true, false, ◌&&◌, List, [], ◌∷◌, arith,
}
use printvendo_backend.RateLimit.{
  Decision, Bucket, Counted, same_bucket, window_of, sweep, count_in, Hit, bucket_of, hit, decide,
}
use printvendo_backend.RateLimit.Windows.{
  ends, AreKept, same_bucket-≡, in_window, kept_later, count_in-sweep, count_in-put, hit-AreKept,
}

-- A decision that let a request of the window through, under a limit of `most` or less.
abbrev pub lets_through : Bucket → ℕ → Hit × ℕ × Decision → Bool
lets_through b most d = same_bucket (bucket_of d.0 d.1) b && (leb d.0.limit most && d.2.allowed)

abbrev pub let_in : Bucket → ℕ → List (Hit × ℕ × Decision) → ℕ
let_in b most ds = count (lets_through b most) ds

-- All requests have a window of some length.
abbrev pub HaveWindows : List (ℕ × Hit) → Type 0
HaveWindows hs = All (λ h. 0 < h.1.window_seconds) hs

-- Once a window has ended, nothing falls in it.
not_in_ended :
    (b : Bucket) (h : Hit) (now : ℕ)
    → 0 < h.window_seconds
    → ends b ≤ now
    → same_bucket (bucket_of h now) b ≡ false
not_in_ended b h now w e = elim (Bool-cases (same_bucket (bucket_of h now) b)) [
  | inr other ↦ other
  | inl own ↦
      let same = same_bucket-≡ (bucket_of h now) b own in
      let inside = (in_window h now w).1 in
      let end : ends (bucket_of h now) ≡ ends b = ap ends same in absurd (omega arith)
]

ended_none :
    (b : Bucket) (most : ℕ) (hs : List (ℕ × Hit)) (now : ℕ) (counts : List Counted)
    → HaveWindows hs
    → ends b ≤ now
    → let_in b most (decide hs now counts) ≡ 0
unfolding decide
ended_none b most [] now counts w e = refl
ended_none b most (h ∷ hs) now counts w e =
    let other = not_in_ended b h.1 (now + h.0) w.0 (omega arith) in
    let rest = ended_none b most hs (now + h.0) (hit h.1 (now + h.0) counts).1 w.1 (omega arith) in
    rw other (omega arith)

-- What one request does to the count of a window that has not ended.
pub record IsStep (b : Bucket) (h : Hit) (now : ℕ) (counts : List Counted) : Type 0 where
  pub counted :
      (same_bucket (bucket_of h now) b ≡ true)
        × ((hit h now counts).0.allowed ≡ true)
        × (count_in b (hit h now counts).1 ≡ count_in b counts + 1)
        × (count_in b counts < h.limit)
      ⊎ ((same_bucket (bucket_of h now) b && (hit h now counts).0.allowed) ≡ false)
        × (count_in b (hit h now counts).1 ≡ count_in b counts)

pub hit-IsStep :
    (b : Bucket) (h : Hit) (now : ℕ) (counts : List Counted)
    → now < ends b
    → AreKept now counts
    → IsStep b h now counts
unfolding hit
hit-IsStep b h now counts l k =
    let own_bucket = bucket_of h now in
    let swept = count_in-sweep b now counts l k in
    elim (Bool-cases (leb h.limit (count_in own_bucket (sweep now counts)))) [
      | inl full ↦ record { counted = inr (rw full (ground arith), rw full swept) }
      | inr free ↦ elim (Bool-cases (same_bucket own_bucket b)) [
        | inr other ↦ record {
          counted = inr (
            rw (free, other) refl,
            rw free (
                count_in-put b
                  (record {
                    bucket = own_bucket;
                    hits = count_in own_bucket (sweep now counts) + 1;
                    ends_at = (window_of now h.window_seconds).1;
                  })
                  (sweep now counts) other
                ∙ swept),
          );
        }
        | inl own ↦
            let same = same_bucket-≡ own_bucket b own in
            let here : count_in own_bucket (sweep now counts) ≡ count_in b counts =
              ap (λ z. count_in z (sweep now counts)) same ∙ swept in
            record {
              counted =
                  inl (own, rw free refl, rw (free, own) (ap (λ z. z + 1) here), ground arith);
            }
      ]
    ]

-- The arithmetic of a request that is let through, and of one that is not, or is of another window.
within_step :
    (most limit rest before after : ℕ)
    → rest + after ≤ max most after
    → after ≡ before + 1
    → before < limit
    → (if leb limit most && true then 1 else 0) + rest + before ≤ max most before
within_step most limit rest before after h e l = ground arith

other_step :
    (own few let_it : Bool) (most rest before after : ℕ)
    → rest + after ≤ max most after
    → (own && let_it) ≡ false
    → after ≡ before
    → (if own && (few && let_it) then 1 else 0) + rest + before ≤ max most before
other_step own few let_it most rest before after h e l = ground arith

-- What is let through from now on, with what was let through before, is within the limit.
rest_within :
    (b : Bucket) (most : ℕ) (hs : List (ℕ × Hit)) (now : ℕ) (counts : List Counted)
    → HaveWindows hs
    → AreKept now counts
    → let_in b most (decide hs now counts) + count_in b counts ≤ max most (count_in b counts)
unfolding decide
rest_within b most [] now counts w k = omega arith
rest_within b most (h ∷ hs) now counts w k =
    let t = now + h.0 in
    let kept = kept_later now t counts (omega arith) k in
    let after = (hit h.1 t counts).1 in
    elim (Bool-cases (leb (ends b) t)) [
      | inl over ↦
          let ended : ends b ≤ t = ground arith in
          let other = not_in_ended b h.1 t w.0 ended in
          let rest = ended_none b most hs t after w.1 ended in rw other (omega arith)
      | inr running ↦
          let ahead : t < ends b = ground arith in
          let rest = rest_within b most hs t after w.1 (hit-AreKept h.1 t counts w.0 kept) in
          elim (hit-IsStep b h.1 t counts ahead kept).counted [
            | inr (none_here, same) ↦
                other_step (same_bucket (bucket_of h.1 t) b) (leb h.1.limit most)
                  (hit h.1 t counts).0.allowed most _ _ _ rest none_here same
            | inl (own, let_it, more, below) ↦
                rw (own, let_it) (within_step most h.1.limit _ _ _ rest more below)
          ]
    ]

-- However requests are made, by whatever callers and at whatever moments, with windows of a second or
-- more, as long as the clock does not go back: of those that fall in one window of a key, no more are let through under a limit than
-- the limit allows.
pub hits_within_limit :
    (hs : List (ℕ × Hit)) (now : ℕ) (b : Bucket) (most : ℕ)
    → HaveWindows hs
    → let_in b most (decide hs now []) ≤ most
hits_within_limit hs now b most w = let rest = rest_within b most hs now [] w tt in omega arith
