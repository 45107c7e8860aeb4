-- ===== src/Download/Task.antt =====
-- pkg/download/downloader.go and model.go: the status of one task. `statusLock` makes each function
-- one step, and `set_waiting` is one write; `runGeneration` is a uint64 and wraps.
pub mod Generation
use pony_downloader.Common.{ℕ, ◌+◌, ◌%◌, ◌^◌, Bool, true, false, ◌&&◌, ◌||◌, ◌==◌, if◌then◌else◌}

-- pkg/base/constants.go
pub data Status : Type 0 where
  ready running pause wait error done : Status

pub Status-discrete : Discrete Status
Status-discrete = hlevel

pub record Task : Type 0 where
  pub status : Status
  pub run_generation : ℕ

abbrev pub is_running : Status → Bool
is_running running = true
is_running _ = false

abbrev pub is_done : Status → Bool
is_done done = true
is_done _ = false

-- pause, done and error: the states that `preparePause` leaves alone
abbrev pub is_settled : Status → Bool
is_settled pause = true
is_settled error = true
is_settled done = true
is_settled _ = false

abbrev pub is_paused_or_waiting : Status → Bool
is_paused_or_waiting pause = true
is_paused_or_waiting wait = true
is_paused_or_waiting _ = false

abbrev pub next_generation : ℕ → ℕ
next_generation g = (g + 1) % 2 ^ 64

-- `NewTask`
abbrev pub new_task : Task
new_task = record { status = ready; run_generation = 0 }

-- `updateStatus` and `runGeneration++`
abbrev pub move_to : Status → Task → Task
move_to s t = record { status = s; run_generation = next_generation t.run_generation }

-- The critical section of `doStart` when the fetcher is restored; a task that runs or is done stays
-- as it is. The flag says whether a handler is launched.
unfoldable pub start_status : Task → Task × Bool
start_status t =
    if is_running t.status || is_done t.status then (t, false) else (move_to running t, true)

-- `preparePause`; the flag is false when it returns early
unfoldable pub prepare_pause : Task → Task × Bool
prepare_pause t = if is_settled t.status then (t, false) else (move_to pause t, true)

-- `task.Status = base.DownloadStatusWait`, which counts no generation
abbrev pub set_waiting : Task → Task
set_waiting t = record t { status = wait }

abbrev pub is_pause : Status → Bool
is_pause pause = true
is_pause _ = false

-- the end of `doPauseForScheduling`: a task still paused by this call goes to the queue
unfoldable pub queue_paused : ℕ → Task → Task × Bool
queue_paused generation t =
    if is_pause t.status && t.run_generation == generation
    then (record t { status = wait }, true)
    else (t, false)

-- the status part of `markTaskDone`
unfoldable pub mark_task_done : Task → Task × Bool
mark_task_done t = if is_running t.status then (move_to done t, true) else (t, false)

-- `markTaskError`
unfoldable pub mark_task_error : Task → Task × Bool
mark_task_error t = if is_running t.status then (move_to error t, true) else (t, false)

-- `taskIsRunningGeneration`
unfoldable pub task_is_running_generation : Task → ℕ → Bool
task_is_running_generation t generation = is_running t.status && t.run_generation == generation

-- `taskIsPausedGeneration`
unfoldable pub task_is_paused_generation : Task → ℕ → Bool
task_is_paused_generation t generation =
    is_paused_or_waiting t.status && t.run_generation == generation
