-- ===== src/Http/SlowStart/Growth.antt =====
-- The growth of the batches, and the connections that are launched.
use pony_downloader.Common.{
  ℕ, ◌-◌, ◌*◌, ◌≤◌, ◌≡◌, ◌⊎◌, inl, inr, ◌∙◌, refl, List, [], ◌∷◌, arith, ◌==◌, if◌then◌else◌, min,
}
use pony_downloader.Http.SlowStart.{
  SlowStart, new_slow_start, on_connect_success, on_connect_failed, get_next_batch_size, grow,
  commit_batch,
}

pub record IsSound (s : SlowStart) : Type 0 where
  pub bounded : s.total_launched ≤ s.max_connections
  pub positive : 1 ≤ s.next_batch_size
  pub capped : (s.next_batch_size ≡ 1) ⊎ (s.next_batch_size ≤ s.max_connections)
  pub pending_launched : s.batch_pending ≤ s.total_launched

new_limit : (max : ℕ) → (new_slow_start max).max_connections ≡ max
unfolding new_slow_start
new_limit max = refl

new_slow_start-IsSound : (max : ℕ) → IsSound (new_slow_start max)
unfolding new_slow_start
new_slow_start-IsSound max = ground arith

-- The guard against overflow computes the square capped at the limit.
pub grow-min :
    (max next : ℕ)
    → 1 ≤ next
    → next ≤ max
    → grow max next ≡ min max (if next == 1 then 2 else next * next)
unfolding grow
grow-min max next p q = grind arith

-- What may happen to the controller: a response, a failure, or an expansion that finds work for
-- `wanted` connections. `paused` is never set by the program.
pub data Event : Type 0 where
  succeed fail : Event
  expand : ℕ → Event

pub launch : SlowStart → ℕ → SlowStart
launch s wanted =
    let n = min wanted (get_next_batch_size s) in if n == 0 then s else commit_batch s n

pub step : SlowStart → Event → SlowStart
step s succeed = (on_connect_success s).0
step s fail = on_connect_failed s
step s (expand wanted) = launch s wanted

pub run : SlowStart → List Event → SlowStart
run s [] = s
run s (e ∷ es) = run (step s e) es

get_next_batch_size-le :
    (s : SlowStart)
    → (get_next_batch_size s ≤ s.next_batch_size)
      × (get_next_batch_size s ≤ s.max_connections - s.total_launched)
unfolding get_next_batch_size
get_next_batch_size-le s = ground arith

grow_bounds :
    (max next : ℕ)
    → 1 ≤ max
    → 1 ≤ next
    → (next ≡ 1) ⊎ (next ≤ max)
    → (1 ≤ grow max next) × (grow max next ≤ max)
grow_bounds max next m p (inl e) = unfold grow in ground arith
grow_bounds max next m p (inr q) = ground (arith, grow-min max next p q, square next p)
  where
    square : (n : ℕ) → 1 ≤ n → 1 ≤ n * n
    square n h = grind arith

commit_batch-IsSound :
    (s : SlowStart) (n : ℕ)
    → IsSound s
    → 1 ≤ n
    → n ≤ get_next_batch_size s
    → IsSound (commit_batch s n)
unfolding commit_batch
commit_batch-IsSound s n v p q = ground (
  arith,
  get_next_batch_size-le s,
  grow_bounds s.max_connections s.next_batch_size (omega (arith, get_next_batch_size-le s))
      v.positive v.capped,
)

step-IsSound : (s : SlowStart) (e : Event) → IsSound s → IsSound (step s e)
unfolding step
step-IsSound s succeed v = unfold on_connect_success in ground arith
step-IsSound s fail v = unfold on_connect_failed in ground arith
step-IsSound s (expand wanted) v =
    unfold launch in ground (arith, commit_batch-IsSound s (min wanted (get_next_batch_size s)))

run-IsSound : (s : SlowStart) (es : List Event) → IsSound s → IsSound (run s es)
unfolding run
run-IsSound s [] v = v
run-IsSound s (e ∷ es) v = run-IsSound (step s e) es (step-IsSound s e v)

max_connections-step : (s : SlowStart) (e : Event) → (step s e).max_connections ≡ s.max_connections
unfolding step
max_connections-step s succeed = unfold on_connect_success in ground arith
max_connections-step s fail = unfold on_connect_failed in ground arith
max_connections-step s (expand wanted) = unfold launch commit_batch in ground arith

max_connections-run :
    (s : SlowStart) (es : List Event) → (run s es).max_connections ≡ s.max_connections
unfolding run
max_connections-run s [] = refl
max_connections-run s (e ∷ es) = max_connections-run (step s e) es ∙ max_connections-step s e

-- Whatever happens, the controller never launches more connections than the limit, and the next
-- batch stays between one and the limit (or is the first).
pub launched-le-max :
    (max : ℕ) (es : List Event)
    → let s = run (new_slow_start max) es in
      (s.total_launched ≤ max)
      × (get_next_batch_size s ≤ max - s.total_launched)
      × (1 ≤ s.next_batch_size)
      × ((s.next_batch_size ≡ 1) ⊎ (s.next_batch_size ≤ max))
launched-le-max max es =
    let s = run (new_slow_start max) es in
    ground (
      arith,
      run-IsSound (new_slow_start max) es (new_slow_start-IsSound max),
      max_connections-run (new_slow_start max) es,
      get_next_batch_size-le s,
      new_limit max,
    )
