-- ===== src/Download/Scheduler/Calls.antt =====
-- The calls of the downloader one after the other, as a step relation, without `ContinueBatch`, which
-- ignores the limit.
use pony_downloader.Common.{
  ℕ, ◌+◌, ◌≤◌, ◌<◌, ◌≡◌, refl, Bool, true, false, List, [], ◌∷◌, ◌++◌, arith, ◌==◌, count,
  count-append,
}
use pony_downloader.Download.Task.{
  running, new_task, start_status, move_to, mark_task_done, mark_task_error,
}
use pony_downloader.Download.Scheduler.{
  Downloader, put, runs, running_count, remain_running_count, is_zero, do_start, do_create,
  pause_tasks, pause_all, continue_all, continue_tasks, delete_tasks, delete_all, remove_ids,
  remove_first, task_done, task_error, put_task, pause_each, notify_running,
}
use pony_downloader.Download.Scheduler.Counting.{
  occurrences, IsDistinct, count-put, pause_each-Adds, mark_done-Adds, mark_error-Adds,
}
use pony_downloader.Download.Scheduler.Limit.{
  IsWithin, IsSafe, created, created_lem, Adds-IsSafe, notify_running-IsSafe, pause_tasks-IsSafe,
  pause_all-IsSafe, continue_all-IsSafe, do_create-IsSafe, task_done-IsSafe, task_error-IsSafe,
}
use pony_downloader.Download.Scheduler.Room.{continue_tasks-IsSafe}

-- Delete: the tasks stay distinct and no other runs.
remove_first-occurrences :
    (x a : ℕ) (ts : List ℕ) → occurrences x (remove_first a ts) ≤ occurrences x ts
unfolding remove_first
remove_first-occurrences x a [] = omega arith
remove_first-occurrences x a (b ∷ ts) = ground (arith, remove_first-occurrences x a ts)

remove_first-count : (p : ℕ → Bool) (a : ℕ) (ts : List ℕ) → count p (remove_first a ts) ≤ count p ts
unfolding remove_first
remove_first-count p a [] = omega arith
remove_first-count p a (b ∷ ts) = ground (arith, remove_first-count p a ts)

record Removes (d d' : Downloader) : Type 0 where
  same_limit : d'.max_running ≡ d.max_running
  fewer : (x : ℕ) → occurrences x d'.tasks ≤ occurrences x d.tasks
  fewer_run : running_count d' ≤ running_count d

remove_ids-Removes : (ids : List ℕ) (d : Downloader) → Removes d (remove_ids ids d)
unfolding remove_ids
remove_ids-Removes [] d = record {
  same_limit = refl;
  fewer = λ x. omega arith;
  fewer_run = omega arith;
}
remove_ids-Removes (a ∷ ids) d =
    let ih =
      remove_ids-Removes ids
        (record d { tasks = remove_first a d.tasks; wait_tasks = remove_first a d.wait_tasks }) in
    record {
      same_limit = ih.same_limit;
      fewer = λ x. omega (arith, ih.fewer x, remove_first-occurrences x a d.tasks);
      fewer_run = omega (arith, ih.fewer_run, remove_first-count (runs d.store) a d.tasks);
    }

module _ (restores pauses : ℕ → Bool) where
  delete_tasks-IsSafe :
      (ids : List ℕ) (d : Downloader)
      → IsDistinct d
      → IsWithin d
      → IsSafe (delete_tasks restores pauses ids d)
  unfolding delete_tasks
  delete_tasks-IsSafe [] d v w = (v, w)
  delete_tasks-IsSafe (a ∷ rest) d v w =
      let ids = a ∷ rest in
      let r = remove_ids-Removes ids d in
      notify_running-IsSafe restores pauses (remove_ids ids d) (λ x. omega (arith, v x, r.fewer x))
        (omega (arith, r.same_limit, r.fewer_run))

  -- One call, from a state to the next. A created task is new. `notifyRunning` is a goroutine: the last
  -- five are the calls that launch it without it, and its run, which may come at any later point.
  pub data Call : Downloader → Downloader → Type 0 where
    create :
        (a : ℕ) (d : Downloader)
        → occurrences a d.tasks ≡ 0
        → Call d (do_create restores pauses a d).0
    pause_some : (ts : List ℕ) (d : Downloader) → Call d (pause_tasks restores pauses ts d).0
    pause_everything : (d : Downloader) → Call d (pause_all restores pauses d).0
    continue_some : (ts : List ℕ) (d : Downloader) → Call d (continue_tasks restores pauses ts d).0
    continue_everything : (d : Downloader) → Call d (continue_all restores pauses d).0
    remove : (ids : List ℕ) (d : Downloader) → Call d (delete_tasks restores pauses ids d)
    remove_everything : (d : Downloader) → Call d (delete_all d)
    finish : (a : ℕ) (d : Downloader) → Call d (task_done restores pauses a d)
    fail : (a : ℕ) (d : Downloader) → Call d (task_error restores pauses a d)
    pausing : (ts : List ℕ) (d : Downloader) → Call d (pause_each restores pauses ts d).0
    removing : (ids : List ℕ) (d : Downloader) → Call d (remove_ids ids d)
    finishing :
        (a : ℕ) (d : Downloader)
        → (mark_task_done (d.store a)).1 ≡ true
        → Call d (put_task a (mark_task_done (d.store a)).0 d)
    failing :
        (a : ℕ) (d : Downloader)
        → (mark_task_error (d.store a)).1 ≡ true
        → Call d (put_task a (mark_task_error (d.store a)).0 d)
    notify : (d : Downloader) → Call d (notify_running restores pauses d)

  pub data Calls : Downloader → Downloader → Type 0 where
    none : (d : Downloader) → Calls d d
    next : {d e f : Downloader} → Call d e → Calls e f → Calls d f

  call-IsSafe : {d e : Downloader} → Call d e → IsSafe d → IsSafe e
  call-IsSafe (create a d fresh) (v, w) = do_create-IsSafe restores pauses a d v fresh w
  call-IsSafe (pause_some ts d) (v, w) = pause_tasks-IsSafe restores pauses ts d v w
  call-IsSafe (pause_everything d) (v, w) = pause_all-IsSafe restores pauses d v w
  call-IsSafe (continue_some ts d) (v, w) = continue_tasks-IsSafe restores pauses ts d v w
  call-IsSafe (continue_everything d) (v, w) = continue_all-IsSafe restores pauses d v w
  call-IsSafe (remove ids d) (v, w) = delete_tasks-IsSafe ids d v w
  call-IsSafe (remove_everything d) (v, w) = ((λ x. omega arith), omega arith)
  call-IsSafe (finish a d) (v, w) = task_done-IsSafe restores pauses a d v w
  call-IsSafe (fail a d) (v, w) = task_error-IsSafe restores pauses a d v w
  call-IsSafe (pausing ts d) (v, w) =
      Adds-IsSafe v (pause_each-Adds restores pauses ts d) (omega arith)
  call-IsSafe (removing ids d) (v, w) =
      let r = remove_ids-Removes ids d in
      ((λ x. omega (arith, v x, r.fewer x)), omega (arith, r.same_limit, r.fewer_run))
  call-IsSafe (finishing a d e) (v, w) = Adds-IsSafe v (mark_done-Adds d a e) (omega arith)
  call-IsSafe (failing a d e) (v, w) = Adds-IsSafe v (mark_error-Adds d a e) (omega arith)
  call-IsSafe (notify d) (v, w) = notify_running-IsSafe restores pauses d v w

  -- Every sequence of creations of new tasks, pauses, continuations other than ContinueBatch,
  -- deletions, completions and failures,
  -- with the notifyRunning that some of them launch at once or at any later point, leads from a state in
  -- which the tasks are distinct and no more of them run than MaxRunning to such a state, provided that
  -- each call has otherwise ended before the next begins: this says nothing of a call that begins while
  -- Continue is in doStart.
  pub Calls-IsWithin :
      {d e : Downloader} → Calls d e → IsDistinct d → IsWithin d → IsDistinct e × IsWithin e
  Calls-IsWithin (none d) v w = (v, w)
  Calls-IsWithin (next c cs) v w = let s = call-IsSafe c (v, w) in Calls-IsWithin cs s.0 s.1

  start_new :
      (a : ℕ) (d : Downloader)
      → start_status ((created a d).store a) ≡ (move_to running new_task, true)
  unfolding start_status
  start_new a d = ground arith

  over :
      (d : Downloader) → d.max_running < running_count d → is_zero (remain_running_count d) ≡ false
  over d h = ground arith

  -- The guard of doCreate compares with zero: when the tasks are distinct and more of them run
  -- than MaxRunning, a new task whose fetcher is restored is started at once, and one more runs.
  pub create_over_limit :
      (a : ℕ) (d : Downloader)
      → IsDistinct d
      → occurrences a d.tasks ≡ 0
      → restores a ≡ true
      → d.max_running < running_count d
      → running_count (do_create restores pauses a d).0 ≡ running_count d + 1
  unfolding do_create do_start
  create_over_limit a d v fresh r h =
      let (v', same) = created_lem a d v fresh in
      rw (over (created a d) (omega (arith, same)), start_new a d, r)
        (ground (
          arith,
          same,
          count-put (put d.store a new_task) a (move_to running new_task) (d.tasks ++ a ∷ []),
          count-append (λ b. a == b) d.tasks (a ∷ []),
        ))
