-- ===== src/Download/Scheduler/Counting.antt =====
-- How each step changes the number of running tasks.
use pony_downloader.Common.{
  ℕ, suc, ◌+◌, ◌≤◌, ◌≡◌, refl, ap, ◌∙◌, Bool, true, false, List, [], ◌∷◌, arith, ◌==◌,
  if◌then◌else◌, length, count, Bool-cases, if_cases, inl, inr,
}
use pony_downloader.Download.Task.{
  wait, Task, is_running, start_status, prepare_pause, mark_task_done, mark_task_error,
}
use pony_downloader.Download.Scheduler.{
  Downloader, put, put_task, runs, running_count, wait_in_queue, do_start, do_pause, pause_each,
  start_each,
}

-- how often task a stands in the list
abbrev pub occurrences : ℕ → List ℕ → ℕ
occurrences a = count (λ b. a == b)

-- Every task stands in `tasks` at most once.
abbrev pub IsDistinct : Downloader → Type 0
IsDistinct d = (a : ℕ) → occurrences a d.tasks ≤ 1

-- A change of one task changes the count by the places at which it stands.
pub count-put :
    (store : ℕ → Task) (a : ℕ) (t : Task) (ts : List ℕ)
    → count (runs (put store a t)) ts + (if runs store a then occurrences a ts else 0)
      ≡ count (runs store) ts + (if is_running t.status then occurrences a ts else 0)
count-put store a t [] = ground arith
count-put store a t (b ∷ ts) = ground (arith, count-put store a t ts, same)
  where
    same : (a ≡ b) → runs store a ≡ runs store b
    same e = ap (runs store) e

-- A step from d to d' keeps the tasks and the limit, and adds at most n running tasks.
pub record Adds (d : Downloader) (n : ℕ) (d' : Downloader) : Type 0 where
  pub same_tasks : d'.tasks ≡ d.tasks
  pub same_limit : d'.max_running ≡ d.max_running
  pub added : running_count d' ≤ running_count d + n

pub Adds-refl : (d : Downloader) (n : ℕ) → Adds d n d
Adds-refl d n = record { same_tasks = refl; same_limit = refl; added = omega arith }

pub Adds-trans :
    {d e f : Downloader} {n m : ℕ} (k : ℕ) → Adds d n e → Adds e m f → n + m ≤ k → Adds d k f
Adds-trans k a b h = record {
  same_tasks = b.same_tasks ∙ a.same_tasks;
  same_limit = b.same_limit ∙ a.same_limit;
  added = omega (arith, a.added, b.added);
}

pub Adds-IsDistinct : {d d' : Downloader} {n : ℕ} → IsDistinct d → Adds d n d' → IsDistinct d'
Adds-IsDistinct v a x = omega (arith, v x, ap (occurrences x) a.same_tasks)

-- A change of one task, to any state and to one that does not run.
pub put_task-Adds : (d : Downloader) (a : ℕ) (t : Task) → IsDistinct d → Adds d 1 (put_task a t d)
put_task-Adds d a t v = record {
  same_tasks = refl;
  same_limit = refl;
  added = ground (arith, count-put d.store a t d.tasks, v a);
}

pub put_idle-Adds :
    (d : Downloader) (a : ℕ) (t : Task) → is_running t.status ≡ false → Adds d 0 (put_task a t d)
put_idle-Adds d a t i = record {
  same_tasks = refl;
  same_limit = refl;
  added = ground (arith, count-put d.store a t d.tasks);
}

pub wait_in_queue-Adds : (a : ℕ) (d : Downloader) → Adds d 0 (wait_in_queue a d)
wait_in_queue-Adds a d =
    let u = put_idle-Adds d a (record (d.store a) { status = wait }) refl in
    record { same_tasks = refl; same_limit = refl; added = u.added }

module _ (restores pauses : ℕ → Bool) where
  pub do_start-Adds :
      (a : ℕ) (d : Downloader) → IsDistinct d → Adds d 1 (do_start restores pauses a d).0
  unfolding do_start
  do_start-Adds a d v =
      if_cases (λ (r : Downloader × Bool). Adds d 1 r.0) (start_status (d.store a)).1 _ _
        (λ _.
          if_cases (λ (r : Downloader × Bool). Adds d 1 r.0) (restores a) _ _
            (λ _. put_task-Adds d a (start_status (d.store a)).0 v) (λ _. Adds-refl d 1))
        (λ _. Adds-refl d 1)

  pub start_each-Adds :
      (ts : List ℕ) (d : Downloader)
      → IsDistinct d
      → Adds d (length ts) (start_each restores pauses ts d).0
  unfolding start_each
  start_each-Adds [] d v = Adds-refl d 0
  start_each-Adds (a ∷ ts) d v =
      let one = do_start-Adds a d v in
      elim (Bool-cases (do_start restores pauses a d).1) [
        | inl e ↦
            rw (e, start_each)
              (Adds-trans (suc (length ts)) one
                (start_each-Adds ts (do_start restores pauses a d).0 (Adds-IsDistinct v one))
                (omega arith))
        | inr e ↦
            rw (e, start_each) (Adds-trans (suc (length ts)) one (Adds-refl _ 0) (omega arith))
      ]

  prepare_pause_idle :
      (t : Task) → (prepare_pause t).1 ≡ true → is_running (prepare_pause t).0.status ≡ false
  unfolding prepare_pause
  prepare_pause_idle t h = ground arith

  pub do_pause-Adds : (a : ℕ) (d : Downloader) → Adds d 0 (do_pause restores pauses a d).0
  unfolding do_pause
  do_pause-Adds a d =
      if_cases (λ (r : Downloader × Bool). Adds d 0 r.0) (prepare_pause (d.store a)).1 _ _
        (λ e. put_idle-Adds d a (prepare_pause (d.store a)).0 (prepare_pause_idle (d.store a) e))
        (λ _. Adds-refl d 0)

  pub pause_each-Adds :
      (ts : List ℕ) (d : Downloader) → Adds d 0 (pause_each restores pauses ts d).0
  unfolding pause_each
  pause_each-Adds [] d = Adds-refl d 0
  pause_each-Adds (a ∷ ts) d = elim (Bool-cases (do_pause restores pauses a d).1) [
    | inl e ↦
        rw (e, pause_each)
          (Adds-trans 0 (do_pause-Adds a d) (pause_each-Adds ts (do_pause restores pauses a d).0)
            (omega arith))
    | inr e ↦ rw (e, pause_each) (do_pause-Adds a d)
  ]

mark_done_idle :
    (t : Task) → (mark_task_done t).1 ≡ true → is_running (mark_task_done t).0.status ≡ false
unfolding mark_task_done
mark_done_idle t h = ground arith

mark_error_idle :
    (t : Task) → (mark_task_error t).1 ≡ true → is_running (mark_task_error t).0.status ≡ false
unfolding mark_task_error
mark_error_idle t h = ground arith

-- A task that is done or has failed stops running.
pub mark_done-Adds :
    (d : Downloader) (a : ℕ)
    → (mark_task_done (d.store a)).1 ≡ true
    → Adds d 0 (put_task a (mark_task_done (d.store a)).0 d)
mark_done-Adds d a h =
    put_idle-Adds d a (mark_task_done (d.store a)).0 (mark_done_idle (d.store a) h)

pub mark_error-Adds :
    (d : Downloader) (a : ℕ)
    → (mark_task_error (d.store a)).1 ≡ true
    → Adds d 0 (put_task a (mark_task_error (d.store a)).0 d)
mark_error-Adds d a h =
    put_idle-Adds d a (mark_task_error (d.store a)).0 (mark_error_idle (d.store a) h)
