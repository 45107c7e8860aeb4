-- ===== src/Http/SlowStart.antt =====
-- internal/protocol/http/fetcher.go, `slowStartController`: how many connections are opened next.
-- The mutex makes each method one step; `expansionCh` is a channel with one place, here the flag
-- that says whether it is full.
pub mod Growth
pub mod Batch
use pony_downloader.Common.{
  ℕ, ◌+◌, ◌-◌, ◌*◌, ◌/◌, Bool, true, false, ltb, leb, ◌==◌, if◌then◌else◌, min,
}

pub record SlowStart : Type 0 where
  pub max_connections : ℕ
  pub total_launched : ℕ
  pub batch_pending : ℕ
  pub batch_ready : ℕ
  pub next_batch_size : ℕ
  pub expansion_signalled : Bool
  pub paused : Bool

-- `newSlowStartController`
unfoldable pub new_slow_start : ℕ → SlowStart
new_slow_start max = record {
  max_connections = max;
  total_launched = 0;
  batch_pending = 0;
  batch_ready = 0;
  next_batch_size = 1;
  expansion_signalled = false;
  paused = false;
}

-- `signalExpansion`: a send that is dropped if the channel is full
abbrev pub signal_expansion : SlowStart → SlowStart
signal_expansion s = record s { expansion_signalled = true }

-- `onConnectSuccess`; the result says whether the batch is complete
unfoldable pub on_connect_success : SlowStart → SlowStart × Bool
on_connect_success s =
    let s' = record s { batch_ready = s.batch_ready + 1 } in
    if leb s'.batch_pending s'.batch_ready then (signal_expansion s', true) else (s', false)

-- `onConnectFailed`
unfoldable pub on_connect_failed : SlowStart → SlowStart
on_connect_failed s =
    let s' =
      if ltb 0 s.batch_pending then record s { batch_pending = s.batch_pending - 1 } else s in
    if s'.batch_pending == 0 then signal_expansion s' else s'

-- `getNextBatchSize`; `remaining <= 0` is `maxConnections <= totalLaunched`
unfoldable pub get_next_batch_size : SlowStart → ℕ
get_next_batch_size s =
    if s.paused
    then 0
    else if leb s.max_connections s.total_launched
    then 0
    else let remaining = s.max_connections - s.total_launched in
      if ltb remaining s.next_batch_size then remaining else s.next_batch_size

-- the three branches of `commitBatch`
pub grow : ℕ → ℕ → ℕ
grow max next = if next == 1 then min 2 max else if ltb (max / next) next then max else next * next

-- `commitBatch`
unfoldable pub commit_batch : SlowStart → ℕ → SlowStart
unfolding grow
commit_batch s count = record s {
  total_launched = s.total_launched + count;
  next_batch_size = grow s.max_connections s.next_batch_size;
  batch_pending = count;
  batch_ready = 0;
}
