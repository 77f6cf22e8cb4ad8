-- ===== src/RateLimit.antt =====
-- app/core/ratelimit.py: counting in windows that are aligned to the clock, in the store in memory.
-- Moments are milliseconds, in place of the floating-point seconds of the code.
pub mod Windows
pub mod Allowance
pub mod Retry
pub mod History
mod Examples
use printvendo_backend.Prelude.{
  ltb, leb, ◌==◌, if◌then◌else◌, filter, find, ℕ, ◌+◌, ◌-◌, ◌*◌, ◌/◌, max, String, Bool, true,
  false, not, ◌&&◌, Option, none, some, List, [], ◌∷◌, str_eq,
}

-- `Decision`
pub record Decision : Type 0 where
  pub allowed : Bool
  pub retry_after : ℕ

-- ALLOWED
abbrev pub let_through : Decision
let_through = record { allowed = true; retry_after = 0 }

-- A key of the dictionary, and what is stored under it.
pub record Bucket : Type 0 where
  pub key : String
  pub window_seconds : ℕ
  pub index : ℕ

pub record Counted : Type 0 where
  pub bucket : Bucket
  pub hits : ℕ
  pub ends_at : ℕ

abbrev pub same_bucket : Bucket → Bucket → Bool
same_bucket a b = str_eq a.key b.key && (a.window_seconds == b.window_seconds && a.index == b.index)

-- `_window_of`
abbrev pub window_of : ℕ → ℕ → ℕ × ℕ
window_of now window_seconds =
    let index = now / (1000 * window_seconds) in (index, (index + 1) * (1000 * window_seconds))

-- `_refusal`: whole seconds, rounded up, and never none.
abbrev pub refusal : ℕ → ℕ → Decision
refusal now ends_at = record { allowed = false; retry_after = max 1 ((ends_at - now + 999) / 1000) }

-- `_sweep`
abbrev pub sweep : ℕ → List Counted → List Counted
sweep now counts = filter (λ c. ltb now c.ends_at) counts

abbrev pub hits_of : Option Counted → ℕ
hits_of none = 0
hits_of (some c) = c.hits

-- `self._counts[bucket] = …`
abbrev pub put : Counted → List Counted → List Counted
put c counts = c ∷ filter (λ d. not (same_bucket d.bucket c.bucket)) counts

abbrev pub count_in : Bucket → List Counted → ℕ
count_in b counts = hits_of (find (λ c. same_bucket c.bucket b) counts)

-- A request that is limited.
pub record Hit : Type 0 where
  pub key : String
  pub limit : ℕ
  pub window_seconds : ℕ

abbrev pub bucket_of : Hit → ℕ → Bucket
bucket_of h now = record {
  key = h.key;
  window_seconds = h.window_seconds;
  index = (window_of now h.window_seconds).0;
}

-- `MemoryCounter.hit`
unfoldable pub hit : Hit → ℕ → List Counted → Decision × List Counted
hit h now counts =
    let swept = sweep now counts in
    let bucket = bucket_of h now in
    let ends_at = (window_of now h.window_seconds).1 in
    if leb h.limit (count_in bucket swept) then (refusal now ends_at, swept) else (
      let_through,
      put (record { bucket = bucket; hits = count_in bucket swept + 1; ends_at = ends_at }) swept,
    )

-- The store behind requests, each some milliseconds after the one before.
unfoldable pub run_hits : List (ℕ × Hit) → ℕ → List Counted → List Counted
unfolding hit
run_hits [] now counts = counts
run_hits (h ∷ hs) now counts = let at = now + h.0 in run_hits hs at (hit h.1 at counts).1

-- The decisions of requests, each some milliseconds after the one before.
unfoldable pub decide : List (ℕ × Hit) → ℕ → List Counted → List (Hit × ℕ × Decision)
unfolding hit
decide [] now counts = []
decide (h ∷ hs) now counts =
    let at = now + h.0 in (h.1, at, (hit h.1 at counts).0) ∷ decide hs at (hit h.1 at counts).1
