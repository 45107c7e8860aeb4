-- ===== src/Http/SlowStart/Batch.antt =====
-- When a batch counts as resolved: the signal that lets the next batch start.
use pony_downloader.Common.{
  ℕ, suc, ◌+◌, ◌<◌, ◌≤◌, ◌≡◌, refl, true, false, arith, List, [], ◌∷◌, length,
}
use pony_downloader.Http.SlowStart.{SlowStart, on_connect_success, on_connect_failed, commit_batch}

-- How a connection of a batch ends: with a response or without one.
pub data Outcome : Type 0 where
  responds fails : Outcome

-- the outcomes of connections of a batch, the latest first
pub run_batch : List Outcome → SlowStart → SlowStart
run_batch [] s = s
run_batch (responds ∷ os) s = (on_connect_success (run_batch os s)).0
run_batch (fails ∷ os) s = on_connect_failed (run_batch os s)

abbrev pub responses : List Outcome → ℕ
responses [] = 0
responses (responds ∷ os) = suc (responses os)
responses (fails ∷ os) = responses os

abbrev failures : List Outcome → ℕ
failures [] = 0
failures (responds ∷ os) = failures os
failures (fails ∷ os) = suc (failures os)

all_counted : (os : List Outcome) → responses os + failures os ≡ length os
all_counted [] = refl
all_counted (responds ∷ os) = omega (arith, all_counted os)
all_counted (fails ∷ os) = omega (arith, all_counted os)

-- The counters after k responses and j failures within a batch of n, before the signal.
record IsWaiting (n k j : ℕ) (s : SlowStart) : Type 0 where
  pending : s.batch_pending + j ≡ n
  ready : s.batch_ready ≡ k
  quiet : s.expansion_signalled ≡ false

commit_batch-IsWaiting :
    (s : SlowStart) (n : ℕ) → s.expansion_signalled ≡ false → IsWaiting n 0 0 (commit_batch s n)
unfolding commit_batch
commit_batch-IsWaiting s n q = ground arith

success-IsWaiting :
    (n k j : ℕ) (s : SlowStart)
    → suc k + j < n
    → IsWaiting n k j s
    → IsWaiting n (suc k) j (on_connect_success s).0
unfolding on_connect_success
success-IsWaiting n k j s h w = ground arith

failure-IsWaiting :
    (n k j : ℕ) (s : SlowStart)
    → suc j < n
    → IsWaiting n k j s
    → IsWaiting n k (suc j) (on_connect_failed s)
unfolding on_connect_failed
failure-IsWaiting n k j s h w = ground arith

run_batch-IsWaiting :
    (n : ℕ) (os : List Outcome) (s : SlowStart)
    → length os < n
    → IsWaiting n 0 0 s
    → IsWaiting n (responses os) (failures os) (run_batch os s)
unfolding run_batch
run_batch-IsWaiting n [] s h w = w
run_batch-IsWaiting n (responds ∷ os) s h w =
    success-IsWaiting n (responses os) (failures os) (run_batch os s)
      (omega (arith, h, all_counted os)) (run_batch-IsWaiting n os s (omega arith) w)
run_batch-IsWaiting n (fails ∷ os) s h w =
    failure-IsWaiting n (responses os) (failures os) (run_batch os s)
      (omega (arith, h, all_counted os)) (run_batch-IsWaiting n os s (omega arith) w)

last_success :
    (n k j : ℕ) (s : SlowStart)
    → suc k + j ≡ n
    → IsWaiting n k j s
    → ((on_connect_success s).0.expansion_signalled ≡ true) × ((on_connect_success s).1 ≡ true)
unfolding on_connect_success
last_success n k j s h w = ground arith

late_failure :
    (n k j : ℕ) (t : SlowStart)
    → 1 ≤ k
    → k + j ≡ n
    → IsWaiting (suc n) k j t
    → (on_connect_failed t).expansion_signalled ≡ false
unfolding on_connect_failed
late_failure n k j t h e w = ground (arith, w.pending, w.quiet)

module _ (s : SlowStart) (quiet : s.expansion_signalled ≡ false) where
  waiting :
      (os : List Outcome)
      → IsWaiting
          (suc (length os))
          (responses os)
          (failures os)
          (run_batch os (commit_batch s (suc (length os))))
  waiting os =
      run_batch-IsWaiting (suc (length os)) os (commit_batch s (suc (length os))) (omega arith)
        (commit_batch-IsWaiting s (suc (length os)) quiet)

  -- When no signal waits in the channel as a batch starts, and each connection of the batch gives one
  -- outcome, then nothing is signalled before the last outcome, whatever the order of the others, and
  -- a response that is the last outcome signals.
  pub batch_resolved :
      (os : List Outcome)
      → let before = run_batch os (commit_batch s (suc (length os))) in
        (before.expansion_signalled ≡ false)
        × ((on_connect_success before).0.expansion_signalled ≡ true)
        × ((on_connect_success before).1 ≡ true)
  batch_resolved os =
      let w = waiting os in
      let last =
        last_success (suc (length os)) (responses os) (failures os) _
          (omega (arith, all_counted os)) w in
      (w.quiet, last.0, last.1)

  -- When no signal waits in the channel as a batch starts, and each connection of the batch gives one
  -- outcome, then a batch whose last outcome is a failure and that had a response before it, in
  -- whatever order the others came, is not signalled, although every connection has its outcome.
  pub batch_stalls :
      (os : List Outcome)
      → 1 ≤ responses os
      → (run_batch (fails ∷ os) (commit_batch s (suc (length os)))).expansion_signalled ≡ false
  unfolding run_batch
  batch_stalls os h =
      late_failure (length os) (responses os) (failures os) _ h (all_counted os) (waiting os)
