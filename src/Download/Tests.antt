-- ===== src/Download/Tests.antt =====
-- Tests of the downloader and the witnesses of its theorems.
use pony_downloader.Common.{ℕ, ◌+◌, ◌≤◌, ◌≡◌, refl, Bool, true, [], ◌∷◌, arith, ◌-ℤ◌}
use pony_downloader.Download.Task.{
  running, pause, wait, done, Task, move_to, start_status, prepare_pause, queue_paused,
  task_is_running_generation,
}
use pony_downloader.Download.Task.Generation.{start, queue, act, act_all, stale_handler_stops}
use pony_downloader.Download.Scheduler.{
  Downloader, put, runs, running_count, do_start, start_each, do_create, pause_tasks, pause_each,
  notify_running, pause_for_scheduling, make_room, continue_tasks, continue_some, share_out,
  task_done,
}
use pony_downloader.Download.Scheduler.Counting.{occurrences, IsDistinct}
use pony_downloader.Download.Scheduler.Limit.{IsWithin}
use pony_downloader.Download.Scheduler.Calls.{
  Calls, create, pausing, notify, next, none, Calls-IsWithin, create_over_limit,
}
use pony_downloader.Download.Scheduler.Queue.{stale_head_stalls, paused_task_restarts}
use pony_downloader.Download.Scheduler.Started.{underway, continue_tasks_lem}
use pony_downloader.Download.ExtractionQueue.{
  ExtractionQueue, new_extraction_queue, start as start_queue, stop as stop_queue, enqueue_job,
  leave,
}
use pony_downloader.Download.ExtractionQueue.Signals.{copies, IsDelivered}
use pony_downloader.Download.ExtractionQueue.Delivery.{
  Reach, here, started, stopped, enqueued, Reach-IsDelivered, leave_lem,
}

abbrev always : ℕ → Bool
always a = true

abbrev at_rest : ℕ → Task
at_rest a = record { status = wait; run_generation = 0 }

-- task 1 runs, task 2 waits, and one task may run
abbrev busy : Downloader
busy = record {
  max_running = 1;
  store = put at_rest 1 (record { status = running; run_generation = 1 });
  tasks = 1 ∷ 2 ∷ [];
  wait_tasks = 2 ∷ [];
}

two_distinct : (a : ℕ) → occurrences a (1 ∷ 2 ∷ []) ≤ 1
two_distinct a = ground arith

-- Task 2 is continued: task 1 is paused and queued behind it, and task 2 runs but stays queued.
abbrev continued : Downloader
continued = (continue_tasks always always (2 ∷ []) busy).0

continued_queue : continued.wait_tasks ≡ 2 ∷ 1 ∷ []
unfolding continue_tasks continue_some make_room share_out start_each do_start pause_for_scheduling
    start_status prepare_pause queue_paused ◌-ℤ◌
continued_queue = refl

stale_handler_stops_example :
    ((act_all (record { status = running; run_generation = 5 }) (start ∷ queue 4 ∷ start ∷ [])).1
      ≡ 0)
    × ((act_all (record { status = running; run_generation = 5 }) (start ∷ queue 4 ∷ start ∷ [])).0
        ≡ record { status = running; run_generation = 5 })
unfolding act_all act start_status queue_paused task_is_running_generation
stale_handler_stops_example =
    stale_handler_stops (record { status = running; run_generation = 5 })
      (start ∷ queue 4 ∷ start ∷ []) (omega arith) (omega arith) refl

-- Task 3 is created, task 1 paused, and the goroutine that its pause launches comes last.
abbrev paused_1 : Downloader
paused_1 = (pause_each always always (1 ∷ []) (do_create always always 3 busy).0).0

busy-Calls : Calls always always busy (notify_running always always paused_1)
busy-Calls =
    next (create 3 busy refl)
      (next (pausing (1 ∷ []) (do_create always always 3 busy).0) (next (notify paused_1) (none _)))

Calls-IsWithin_example :
    IsDistinct (notify_running always always paused_1)
    × IsWithin (notify_running always always paused_1)
Calls-IsWithin_example = Calls-IsWithin always always busy-Calls two_distinct (omega arith)

-- the limit is lowered to none while task 1 runs
abbrev lowered : Downloader
lowered = record busy { max_running = 0 }

create_over_limit_example :
    running_count (do_create always always 3 lowered).0 ≡ running_count lowered + 1
create_over_limit_example =
    create_over_limit always always 3 lowered two_distinct refl refl (omega arith)

continue_tasks_lem_example :
    (1 ≤ occurrences 2 (2 ∷ []) → underway continued.store 2 ≡ true)
    × (1 ≤ occurrences 2 [] → 1 ≤ occurrences 2 continued.wait_tasks)
unfolding continue_tasks continue_some make_room share_out start_each do_start pause_for_scheduling
    start_status prepare_pause queue_paused ◌-ℤ◌
continue_tasks_lem_example = continue_tasks_lem always always (2 ∷ []) busy refl 2

stale_head_stalls_example : task_done always always 2 continued ≡ record continued {
  store = put continued.store 2 (move_to done (continued.store 2));
  wait_tasks = 1 ∷ [];
}
unfolding continue_tasks continue_some make_room share_out start_each do_start pause_for_scheduling
    start_status prepare_pause queue_paused ◌-ℤ◌
stale_head_stalls_example =
    stale_head_stalls always always 2 (1 ∷ []) continued two_distinct refl refl refl refl

paused_task_restarts_example :
    (((pause_tasks always always (2 ∷ []) busy).0.store 2).status ≡ pause)
    × (runs (task_done always always 1 (pause_tasks always always (2 ∷ []) busy).0).store 2 ≡ true)
paused_task_restarts_example =
    paused_task_restarts always always 2 1 [] busy two_distinct refl refl refl refl refl refl refl

-- A queue that is started and stopped with job 4 pending.
abbrev stopping : ExtractionQueue
stopping = stop_queue (enqueue_job 4 (start_queue new_extraction_queue))

stopping-Reach : Reach (4 ∷ []) stopping
stopping-Reach = stopped (enqueued 4 (started here))

Reach-IsDelivered_example : IsDelivered (4 ∷ []) stopping
Reach-IsDelivered_example = Reach-IsDelivered stopping-Reach

leave_lem_example : (leave stopping).closed 4 ≡ copies 4 (4 ∷ [])
unfolding start_queue stop_queue enqueue_job
leave_lem_example = leave_lem stopping-Reach (omega arith) 4
