-- ===== src/Download/Scheduler/Queue.antt =====
-- The queue of waiting tasks: what `notifyRunning` finds in it.
use pony_downloader.Common.{
  ℕ, ◌≡◌, ◌≢◌, refl, sym, ap, ◌∙◌, Bool, true, false, List, [], ◌∷◌, arith,
}
use pony_downloader.Download.Task.{
  running, pause, wait, done, Task, start_status, prepare_pause, mark_task_done, move_to,
  is_running, is_done, is_settled,
}
use pony_downloader.Download.Scheduler.{
  Downloader, put, put_task, runs, running_count, remain_running_count, is_zero, do_start, do_pause,
  pause_each, pause_tasks, notify_running, task_done, listed,
}
use pony_downloader.Download.Scheduler.Counting.{occurrences, IsDistinct, count-put}

finished : Task → Task
finished t = move_to done t

finish_running : (t : Task) → is_running t.status ≡ true → mark_task_done t ≡ (finished t, true)
unfolding mark_task_done finished
finish_running t r = ground arith

settled_stays :
    (store : ℕ → Task) (a : ℕ) (t : Task)
    → is_done t.status ≡ true
    → (start_status (put store a t a)).1 ≡ false
unfolding start_status
settled_stays store a t h = ground arith

put_same : (store : ℕ → Task) (a : ℕ) (t : Task) → put store a t a ≡ t
put_same store a t = ground arith

other_task : (store : ℕ → Task) (a x : ℕ) (t : Task) → x ≢ a → put store a t x ≡ store x
other_task store a x t h = ground (arith, λ (e : a ≡ x). h (sym e))

apart : (store : ℕ → Task) (x a : ℕ) → runs store x ≡ true → (store a).status ≡ wait → x ≢ a
apart store x a r w e =
    absurd (ground (arith, ap is_running w, ap (λ y. is_running (store y).status) e))

-- A paused task can start.
start_paused :
    (d : Downloader) (a : ℕ)
    → (d.store a).status ≡ pause
    → ((start_status (d.store a)).1 ≡ true) × ((start_status (d.store a)).0.status ≡ running)
unfolding start_status
start_paused d a p = rw (ap is_running p, ap is_done p, start_status) (refl, refl)

is_listed : (a : ℕ) (ts : List ℕ) → occurrences a ts ≡ 1 → listed a ts ≡ true
unfolding listed
is_listed a [] o = absurd (omega (arith, o))
is_listed a (b ∷ ts) o = ground (arith, is_listed a ts)

-- A slot is free once a running task has finished.
slot :
    (d : Downloader) (a : ℕ)
    → IsDistinct d
    → runs d.store a ≡ true
    → occurrences a d.tasks ≡ 1
    → running_count d ≡ d.max_running
    → is_zero (remain_running_count (put_task a (finished (d.store a)) d)) ≡ false
unfolding finished
slot d a v r o full = ground (arith, count-put d.store a (move_to done (d.store a)) d.tasks)

module _ (restores pauses : ℕ → Bool) where
  do_start_idle :
      (a : ℕ) (d : Downloader)
      → (start_status (d.store a)).1 ≡ false
      → do_start restores pauses a d ≡ (d, true)
  unfolding do_start
  do_start_idle a d h = rw (h, do_start) refl

  do_start_runs :
      (a : ℕ) (d : Downloader)
      → (start_status (d.store a)).1 ≡ true
      → restores a ≡ true
      → do_start restores pauses a d ≡ (put_task a (start_status (d.store a)).0 d, true)
  unfolding do_start
  do_start_runs a d h r = rw (h, r, do_start) refl

  notify_pops :
      (a : ℕ) (rest : List ℕ) (d : Downloader)
      → is_zero (remain_running_count d) ≡ false
      → d.wait_tasks ≡ a ∷ rest
      → notify_running restores pauses d
        ≡ (do_start restores pauses a (record d { wait_tasks = rest })).0
  unfolding notify_running
  notify_pops a rest d z q = rw (z, q, notify_running) refl

  finish_notifies :
      (a : ℕ) (d : Downloader)
      → runs d.store a ≡ true
      → occurrences a d.tasks ≡ 1
      → task_done restores pauses a d
        ≡ notify_running restores pauses (put_task a (finished (d.store a)) d)
  unfolding task_done
  finish_notifies a d r o = rw (finish_running (d.store a) r, is_listed a d.tasks o, task_done) refl

  -- In a state with distinct tasks of which MaxRunning run, a running task that also heads the
  -- queue, as Continue leaves it, wastes the slot it frees: when it finishes, every other task
  -- stays as it was, whatever waits behind it.
  pub stale_head_stalls :
      (a : ℕ) (rest : List ℕ) (d : Downloader)
      → IsDistinct d
      → occurrences a d.tasks ≡ 1
      → running_count d ≡ d.max_running
      → d.wait_tasks ≡ a ∷ rest
      → runs d.store a ≡ true
      → task_done restores pauses a d
        ≡ record d { store = put d.store a (move_to done (d.store a)); wait_tasks = rest }
  unfolding finished
  stale_head_stalls a rest d v o full q r =
      finish_notifies a d r o
      ∙ notify_pops a rest (put_task a (finished (d.store a)) d) (slot d a v r o full) q
      ∙ ap (λ (r : Downloader × Bool). r.0)
          (do_start_idle a (record (put_task a (finished (d.store a)) d) { wait_tasks = rest })
            (settled_stays d.store a (finished (d.store a)) refl))

  full_stays :
      (d : Downloader)
      → is_zero (remain_running_count d) ≡ true
      → notify_running restores pauses d ≡ d
  unfolding notify_running
  full_stays d z = rw (z, notify_running) refl

  pause_waiting : (t : Task) → t.status ≡ wait → prepare_pause t ≡ (move_to pause t, true)
  unfolding prepare_pause
  pause_waiting t w = ground (arith, ap is_settled w)

  paused_one : ℕ → Downloader → Downloader
  paused_one a d = put_task a (move_to pause (d.store a)) d

  same_count :
      (a : ℕ) (d : Downloader)
      → (d.store a).status ≡ wait
      → running_count (paused_one a d) ≡ running_count d
  unfolding paused_one
  same_count a d w =
      ground (arith, count-put d.store a (move_to pause (d.store a)) d.tasks, ap is_running w)

  full :
      (d : Downloader) → running_count d ≡ d.max_running → is_zero (remain_running_count d) ≡ true
  full d h = ground arith

  do_pause_one :
      (a : ℕ) (d : Downloader)
      → (d.store a).status ≡ wait
      → pauses a ≡ true
      → do_pause restores pauses a d ≡ (paused_one a d, true)
  unfolding do_pause paused_one
  do_pause_one a d w p = rw (pause_waiting (d.store a) w, p) refl

  pause_each_one :
      (a : ℕ) (d : Downloader)
      → (d.store a).status ≡ wait
      → pauses a ≡ true
      → pause_each restores pauses (a ∷ []) d ≡ (paused_one a d, true)
  unfolding pause_each
  pause_each_one a d w p = rw (do_pause_one a d w p, pause_each, do_pause_one a d w p) refl

  pause_one :
      (a : ℕ) (d : Downloader)
      → (d.store a).status ≡ wait
      → pauses a ≡ true
      → running_count d ≡ d.max_running
      → pause_tasks restores pauses (a ∷ []) d ≡ (paused_one a d, true)
  unfolding pause_tasks paused_one
  pause_one a d w p h =
      rw
        (
          pause_each_one a d w p,
          full_stays (paused_one a d) (full (paused_one a d) (same_count a d w ∙ h)),
        )
        refl

  -- Pause does not take a waiting task out of the queue: in a state with distinct tasks of which
  -- MaxRunning run, when the head of the queue waits, can be restored and is paused without an
  -- error, it is paused, and as soon as a running task finishes it is started.
  pub paused_task_restarts :
      (a x : ℕ) (rest : List ℕ) (d : Downloader)
      → IsDistinct d
      → occurrences x d.tasks ≡ 1
      → running_count d ≡ d.max_running
      → d.wait_tasks ≡ a ∷ rest
      → (d.store a).status ≡ wait
      → runs d.store x ≡ true
      → restores a ≡ true
      → pauses a ≡ true
      → (((pause_tasks restores pauses (a ∷ []) d).0.store a).status ≡ pause)
        × (runs (task_done restores pauses x (pause_tasks restores pauses (a ∷ []) d).0).store a
            ≡ true)
  unfolding paused_one finished
  paused_task_restarts a x rest d v o h q w rx ra p =
      let d1 = paused_one a d in
      let d2 = put_task x (finished (d1.store x)) d1 in
      let u = apart d.store x a rx w in
      let rx' = ap is_running (ap (λ (t : Task). t.status) (other_task d.store a x _ u)) ∙ rx in
      let z = slot d1 x v rx' o (same_count a d w ∙ h) in
      let t2 = start_paused d2 a (
        ap (λ (t : Task). t.status)
          (other_task d1.store x a _ (λ e. u (sym e)) ∙ put_same d.store a _)) in
      rw (pause_one a d w p h) (
        ap (λ (t : Task). t.status) (put_same d.store a _),
        rw
            (
              finish_notifies x d1 rx' o,
              notify_pops a rest d2 z q,
              do_start_runs a (record d2 { wait_tasks = rest }) t2.0 ra,
            )
            (ap is_running (ap (λ (t : Task). t.status) (put_same d2.store a _) ∙ t2.1)),
      )
