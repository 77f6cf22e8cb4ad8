-- ===== src/RateLimit/History.antt =====
-- The limit as it is meant: by the history of what was let through, with nothing stored or swept.
use printvendo_backend.Prelude.{
  ltb, leb, true_not_false, count, ℕ, ◌+◌, ◌<◌, ◌≡◌, refl, sym, ap, ◌∙◌, inl, inr, Bool, true,
  false, not, List, [], ◌∷◌, arith,
}
use printvendo_backend.RateLimit.{
  Decision, let_through, Bucket, Counted, same_bucket, window_of, refusal, sweep, count_in, Hit,
  bucket_of, hit, decide,
}
use printvendo_backend.RateLimit.Windows.{
  ends, AreKept, in_window, kept_later, count_in-sweep, hit-AreKept,
}
use printvendo_backend.RateLimit.Allowance.{HaveWindows, hit-IsStep}

-- How many requests were let through in a window, of all that ever were.
abbrev pub past_in : Bucket → List Bucket → ℕ
past_in b past = count (λ c. same_bucket c b) past

-- A request may pass while its window has seen fewer than its limit.
abbrev pub may_pass : Hit → ℕ → List Bucket → Bool
may_pass h now past = ltb (past_in (bucket_of h now) past) h.limit

abbrev decision_of : Bool → Hit → ℕ → Decision
decision_of true h now = let_through
decision_of false h now = refusal now (window_of now h.window_seconds).1

abbrev remember : Bool → Bucket → List Bucket → List Bucket
remember true b past = b ∷ past
remember false b past = past

unfoldable pub decide_by_history : List (ℕ × Hit) → ℕ → List Bucket → List (Hit × ℕ × Decision)
decide_by_history [] now past = []
decide_by_history (h ∷ hs) now past =
    let at = now + h.0 in
    let passes = may_pass h.1 at past in
    (h.1, at, decision_of passes h.1 at)
    ∷ decide_by_history hs at (remember passes (bucket_of h.1 at) past)

-- The store and the history agree on every window that has not ended.
record Agrees (now : ℕ) (counts : List Counted) (past : List Bucket) : Type 0 where
  same_count : (b : Bucket) → now < ends b → count_in b counts ≡ past_in b past

-- Whether the request passes, by the store.
by_store :
    (h : Hit) (now : ℕ) (counts : List Counted) (past : List Bucket)
    → 0 < h.window_seconds
    → AreKept now counts
    → Agrees now counts past
    → leb h.limit (count_in (bucket_of h now) (sweep now counts)) ≡ not (may_pass h now past)
by_store h now counts past w k a =
    let b = bucket_of h now in
    let ahead = (in_window h now w).1 in
    let same = count_in-sweep b now counts ahead k ∙ a.same_count b ahead in rw same (ground arith)

same_decision :
    (h : Hit) (now : ℕ) (counts : List Counted) (passes : Bool)
    → leb h.limit (count_in (bucket_of h now) (sweep now counts)) ≡ not passes
    → (hit h now counts).0 ≡ decision_of passes h now
unfolding hit
same_decision h now counts true e = rw e refl
same_decision h now counts false e = rw e refl

step-Agrees :
    (h : Hit) (now : ℕ) (counts : List Counted) (past : List Bucket) (passes : Bool)
    → AreKept now counts
    → Agrees now counts past
    → (hit h now counts).0 ≡ decision_of passes h now
    → Agrees now (hit h now counts).1 (remember passes (bucket_of h now) past)
step-Agrees h now counts past true k a e = record {
  same_count = λ b l.
      let before = a.same_count b l in
      let passed : (hit h now counts).0.allowed ≡ true = ap (λ d. d.allowed) e in
      elim (hit-IsStep b h now counts l k).counted [
        | inl (own, let_it, more, below) ↦ rw own (more ∙ ap (λ z. z + 1) before ∙ omega arith)
        | inr (not_both, same) ↦
            let other : same_bucket (bucket_of h now) b ≡ false = ground arith in
            rw other (same ∙ before ∙ omega arith)
      ];
}
step-Agrees h now counts past false k a e = record {
  same_count = λ b l.
      let before = a.same_count b l in
      let stopped : (hit h now counts).0.allowed ≡ false = ap (λ d. d.allowed) e in
      elim (hit-IsStep b h now counts l k).counted [
        | inl (own, let_it, more, below) ↦ true_not_false (sym let_it ∙ stopped)
        | inr (not_both, same) ↦ same ∙ before
      ];
}

refines_from :
    (hs : List (ℕ × Hit)) (now : ℕ) (counts : List Counted) (past : List Bucket)
    → HaveWindows hs
    → AreKept now counts
    → Agrees now counts past
    → decide hs now counts ≡ decide_by_history hs now past
unfolding decide decide_by_history
refines_from [] now counts past w k a = refl
refines_from (h ∷ hs) now counts past w k a =
    let t = now + h.0 in
    let kept = kept_later now t counts (omega arith) k in
    let agrees : Agrees t counts past = record {
      same_count = λ b l. a.same_count b (omega arith);
    } in
    let passes = may_pass h.1 t past in
    let same = same_decision h.1 t counts passes (by_store h.1 t counts past w.0 kept agrees) in
    let rest =
      refines_from hs t (hit h.1 t counts).1 (remember passes (bucket_of h.1 t) past) w.1
        (hit-AreKept h.1 t counts w.0 kept)
        (step-Agrees h.1 t counts past passes kept agrees same) in
    ap (λ d. (h.1, t, d) ∷ decide hs t (hit h.1 t counts).1) same
    ∙ ap (◌∷◌ (h.1, t, decision_of passes h.1 t)) rest

-- Whoever calls, with whatever limits and windows of a second or more, as long as the clock does not
-- go back: the store, which keeps
-- one number for each window and throws it away when the window ends, decides every request as the
-- whole history would, by how many requests of its key were let through in its window.
pub decide-refines :
    (hs : List (ℕ × Hit)) (now : ℕ)
    → HaveWindows hs
    → decide hs now [] ≡ decide_by_history hs now []
decide-refines hs now w = refines_from hs now [] [] w tt (record { same_count = λ b l. refl })
