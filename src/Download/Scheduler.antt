-- ===== src/Download/Scheduler.antt =====
-- pkg/download/downloader.go: the tasks, the queue of waiting tasks, and how many may run.
-- A task is a pointer, here its number; `store` is what the pointers lead to. A function is a whole
-- call, from its start to the end of the handlers of `doStart` and `doPause`, and of the goroutine of
-- `notifyRunning` where it launches one; Calls also takes that goroutine apart from its call. `Continue`
-- and `continueAll` hold `lock` while they count the running tasks and choose those to start or to queue,
-- and not while `doStart` runs: calls that overlap with that part are outside the model. What the fetchers
-- and the storage do is a parameter: whether a task can be restored, and whether its handler pauses it
-- without an error.
pub mod Counting
pub mod Limit
pub mod Room
pub mod Calls
pub mod Started
pub mod Queue
use pony_downloader.Common.{
  ℕ, zero, suc, ◌+◌, ◌-◌, ◌-ℤ◌, ℤ, pos, negsuc, sub_ℕ, ltb_ℤ, min, Bool, true, false, not, ◌&&◌,
  ◌||◌, List, [], ◌∷◌, ◌++◌, ltb, ◌==◌, if◌then◌else◌, length, count,
}
use pony_downloader.Download.Task.{
  Status, ready, running, pause, wait, error, done, Task, new_task, is_running, is_done, is_settled,
  set_waiting, start_status, prepare_pause, queue_paused, mark_task_done, mark_task_error,
}

pub record Downloader : Type 0 where
  pub max_running : ℕ
  pub store : ℕ → Task
  pub tasks : List ℕ
  pub wait_tasks : List ℕ

abbrev pub put : (ℕ → Task) → ℕ → Task → ℕ → Task
put store a t b = if a == b then t else store b

abbrev pub put_task : ℕ → Task → Downloader → Downloader
put_task a t d = record d { store = put d.store a t }

abbrev pub runs : (ℕ → Task) → ℕ → Bool
runs store a = is_running (store a).status

abbrev pub running_count : Downloader → ℕ
running_count d = count (runs d.store) d.tasks

-- `remainRunningCount`, which may be negative
abbrev pub remain_running_count : Downloader → ℤ
remain_running_count d = sub_ℕ d.max_running (running_count d)

abbrev pub is_zero : ℤ → Bool
is_zero (pos n) = n == 0
is_zero (negsuc n) = false

-- the append to `d.waitTasks`
abbrev pub enqueue : ℕ → Downloader → Downloader
enqueue a d = record d { wait_tasks = d.wait_tasks ++ a ∷ [] }

-- `task.Status = base.DownloadStatusWait` and the append to the queue
abbrev pub wait_in_queue : ℕ → Downloader → Downloader
wait_in_queue a d = enqueue a (put_task a (set_waiting (d.store a)) d)

-- `GetTask` finds the task
unfoldable pub listed : ℕ → List ℕ → Bool
listed a [] = false
listed a (b ∷ bs) = a == b || listed a bs

-- the inner loops of `Delete`: the first occurrence goes
unfoldable pub remove_first : ℕ → List ℕ → List ℕ
remove_first a [] = []
remove_first a (b ∷ bs) = if b == a then bs else b ∷ remove_first a bs

unfoldable pub remove_ids : List ℕ → Downloader → Downloader
remove_ids [] d = d
remove_ids (a ∷ ids) d =
    remove_ids ids
      (record d { tasks = remove_first a d.tasks; wait_tasks = remove_first a d.wait_tasks })

-- `deleteAll`, when `doDelete` succeeds for each task
abbrev pub delete_all : Downloader → Downloader
delete_all d = record d { tasks = []; wait_tasks = [] }

-- What `doPauseForScheduling` returns: `queued`, not `queued`, or an error.
pub data Pausing : Type 0 where
  to_queue not_queued failed : Pausing

abbrev pub positive_part : ℤ → ℕ
positive_part (pos n) = n
positive_part (negsuc n) = 0

-- the loop of `Continue` that shares the selected tasks out: the first `room` start, the others
-- wait
unfoldable pub share_out : List ℕ → ℕ → Downloader → List ℕ × Downloader
share_out [] room d = ([], d)
share_out (a ∷ rest) zero d = share_out rest zero (wait_in_queue a d)
share_out (a ∷ rest) (suc room) d = let (chosen, d') = share_out rest room d in (a ∷ chosen, d')

-- the loop of `continueAll`, over the tasks that neither run nor are done
unfoldable pub share_idle : List ℕ → ℕ → Downloader → List ℕ × Downloader
share_idle [] room d = ([], d)
share_idle (a ∷ rest) room d = elim (runs d.store a || is_done (d.store a).status) [
  | true ↦ share_idle rest room d
  | false ↦ elim room [
    | zero ↦ share_idle rest zero (wait_in_queue a d)
    | suc room' ↦ (a ∷ (share_idle rest room' d).0, (share_idle rest room' d).1)
  ]
]

module _ (restores pauses : ℕ → Bool) where
  -- `doStart`; the flag is false when it returns an error
  unfoldable pub do_start : ℕ → Downloader → Downloader × Bool
  do_start a d =
      let (t, launched) = start_status (d.store a) in
      if launched then (if restores a then (put_task a t d, true) else (d, false)) else (d, true)

  -- `for _, task := range ... { if err = d.doStart(task); err != nil { return } }`
  unfoldable pub start_each : List ℕ → Downloader → Downloader × Bool
  start_each [] d = (d, true)
  start_each (a ∷ rest) d = elim (do_start a d).1 [
    | true ↦ start_each rest (do_start a d).0
    | false ↦ do_start a d
  ]

  -- `notifyRunning`
  unfoldable pub notify_running : Downloader → Downloader
  notify_running d =
      if is_zero (remain_running_count d)
      then d
      else elim d.wait_tasks [ [] ↦ d | a ∷ rest ↦ (do_start a (record d { wait_tasks = rest })).0 ]

  -- `doCreate` of a new task, from the locked section on
  unfoldable pub do_create : ℕ → Downloader → Downloader × Bool
  do_create a d =
      let d' = record (put_task a new_task d) { tasks = d.tasks ++ a ∷ [] } in
      if is_zero (remain_running_count d') then (wait_in_queue a d', true) else do_start a d'

  -- `doPause`
  unfoldable pub do_pause : ℕ → Downloader → Downloader × Bool
  do_pause a d =
      let (t, moved) = prepare_pause (d.store a) in
      if moved then (put_task a t d, pauses a) else (d, true)

  unfoldable pub pause_each : List ℕ → Downloader → Downloader × Bool
  pause_each [] d = (d, true)
  pause_each (a ∷ rest) d = elim (do_pause a d).1 [
    | true ↦ pause_each rest (do_pause a d).0
    | false ↦ do_pause a d
  ]

  -- `Pause` of the tasks that the filter has found: none is ErrTaskNotFound, and `notifyRunning` is
  -- not reached on an error
  unfoldable pub pause_tasks : List ℕ → Downloader → Downloader × Bool
  pause_tasks [] d = (d, false)
  pause_tasks (a ∷ rest) d =
      let (d', ok) = pause_each (a ∷ rest) d in
      if ok then (notify_running d', true) else (d', false)

  -- `pauseAll`
  unfoldable pub pause_all : Downloader → Downloader × Bool
  pause_all d = pause_each d.tasks (record d { wait_tasks = [] })

  -- `doPauseForScheduling`
  unfoldable pub pause_for_scheduling : ℕ → Downloader → Downloader × Pausing
  pause_for_scheduling a d =
      let (t, moved) = prepare_pause (d.store a) in
      let (u, queued) = queue_paused t.run_generation t in
      if moved
      then (if pauses a
          then (put_task a u d, if queued then to_queue else not_queued)
          else (put_task a t d, failed))
      else (d, not_queued)

  -- the loop of `Continue` that makes room; `left` counts the pauses still needed
  unfoldable pub make_room : List ℕ → ℕ → Downloader → Downloader × Bool
  make_room [] left d = (d, true)
  make_room (a ∷ rest) left d = if left == 0 then (d, true) else elim (runs d.store a) [
    | true ↦ elim (pause_for_scheduling a d).1 [
      | to_queue ↦ make_room rest (left - 1) (enqueue a (pause_for_scheduling a d).0)
      | not_queued ↦ make_room rest left (pause_for_scheduling a d).0
      | failed ↦ ((pause_for_scheduling a d).0, false)
    ]
    | false ↦ make_room rest left d
  ]

  -- `Continue` once the filter has found tasks
  unfoldable pub continue_some : List ℕ → Downloader → Downloader × Bool
  continue_some selected d =
      let need = min d.max_running (length selected) in
      let (d', ok) = make_room d.tasks (positive_part (pos need -ℤ remain_running_count d)) d in
      let (chosen, d'') = share_out selected need d' in
      if ok then start_each chosen d'' else (d', false)

  -- `Continue` of the tasks that the filter has found; none is ErrTaskNotFound
  unfoldable pub continue_tasks : List ℕ → Downloader → Downloader × Bool
  continue_tasks [] d = (d, false)
  continue_tasks (a ∷ rest) d = continue_some (a ∷ rest) d

  -- `continueAll`
  unfoldable pub continue_all : Downloader → Downloader × Bool
  continue_all d =
      let (chosen, d') = share_idle d.tasks (positive_part (remain_running_count d)) d in
      start_each chosen d'

  -- `ContinueBatch` of the tasks that the filter has found
  abbrev pub continue_batch : List ℕ → Downloader → Downloader × Bool
  continue_batch = start_each

  -- `Delete` of the tasks that the filter has found, when `doDelete` succeeds for each of them
  unfoldable pub delete_tasks : List ℕ → Downloader → Downloader
  delete_tasks [] d = d
  delete_tasks (a ∷ rest) d = notify_running (remove_ids (a ∷ rest) d)

  -- the end of `watch` after a successful `Wait` for a resolved task: the task is done unless it was
  -- deleted, and a waiting one may start
  unfoldable pub task_done : ℕ → Downloader → Downloader
  task_done a d =
      let (t, marked) = mark_task_done (d.store a) in
      if listed a d.tasks && marked then notify_running (put_task a t d) else d

  -- `handleOnError` where no extension revives the task
  unfoldable pub task_error : ℕ → Downloader → Downloader
  task_error a d =
      let (t, marked) = mark_task_error (d.store a) in
      if marked then notify_running (put_task a t d) else d
