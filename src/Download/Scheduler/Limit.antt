-- ===== src/Download/Scheduler/Limit.antt =====
-- The limit on running tasks: which calls keep it, and which do not.
use pony_downloader.Common.{
  ℕ, zero, suc, ◌+◌, ◌≤◌, ◌≡◌, ap, Bool, false, ◌&&◌, ◌||◌, List, [], ◌∷◌, ◌++◌, arith, ◌==◌,
  length, count-append, Bool-cases, if_cases, inl, inr,
}
use pony_downloader.Download.Task.{new_task, is_done, mark_task_done, mark_task_error}
use pony_downloader.Download.Scheduler.{
  Downloader, put, put_task, runs, running_count, remain_running_count, is_zero, wait_in_queue,
  do_start, pause_each, notify_running, do_create, pause_tasks, pause_all, continue_all, share_out,
  share_idle, positive_part, task_done, task_error, listed,
}
use pony_downloader.Download.Scheduler.Counting.{
  occurrences, IsDistinct, count-put, Adds, Adds-trans, Adds-IsDistinct, Adds-refl,
  wait_in_queue-Adds, do_start-Adds, start_each-Adds, pause_each-Adds, mark_done-Adds,
  mark_error-Adds,
}

abbrev pub IsWithin : Downloader → Type 0
IsWithin d = running_count d ≤ d.max_running

-- Every task is there once, and no more tasks run than may run.
abbrev pub IsSafe : Downloader → Type 0
IsSafe d = IsDistinct d × IsWithin d

pub Adds-IsSafe :
    {d d' : Downloader} {n : ℕ}
    → IsDistinct d
    → Adds d n d'
    → running_count d + n ≤ d.max_running
    → IsSafe d'
Adds-IsSafe v a h = (Adds-IsDistinct v a, omega (arith, a.added, a.same_limit))

pub share_out-Adds :
    (ts : List ℕ) (room : ℕ) (d : Downloader)
    → Adds d 0 (share_out ts room d).1 × (length (share_out ts room d).0 ≤ room)
unfolding share_out
share_out-Adds [] room d = (Adds-refl d 0, omega arith)
share_out-Adds (a ∷ ts) zero d =
    let (ih, l) = share_out-Adds ts zero (wait_in_queue a d) in
    (Adds-trans 0 (wait_in_queue-Adds a d) ih (omega arith), l)
share_out-Adds (a ∷ ts) (suc room) d =
    let (ih, l) = share_out-Adds ts room d in (ih, omega (arith, l))

share_idle-Adds :
    (ts : List ℕ) (room : ℕ) (d : Downloader)
    → Adds d 0 (share_idle ts room d).1 × (length (share_idle ts room d).0 ≤ room)
unfolding share_idle
share_idle-Adds [] room d = (Adds-refl d 0, omega arith)
share_idle-Adds (a ∷ ts) zero d = elim (Bool-cases (runs d.store a || is_done (d.store a).status)) [
  | inl e ↦ rw (e, share_idle) (share_idle-Adds ts zero d)
  | inr e ↦
      let (ih, l) = share_idle-Adds ts zero (wait_in_queue a d) in
      rw (e, share_idle) (Adds-trans 0 (wait_in_queue-Adds a d) ih (omega arith), l)
]
share_idle-Adds (a ∷ ts) (suc room) d =
    elim (Bool-cases (runs d.store a || is_done (d.store a).status)) [
      | inl e ↦ rw (e, share_idle) (share_idle-Adds ts (suc room) d)
      | inr e ↦ let (ih, l) = share_idle-Adds ts room d in rw (e, share_idle) (ih, omega (arith, l))
    ]

-- `doCreate` up to its test
abbrev pub created : ℕ → Downloader → Downloader
created a d = record (put_task a new_task d) { tasks = d.tasks ++ a ∷ [] }

pub created_lem :
    (a : ℕ) (d : Downloader)
    → IsDistinct d
    → occurrences a d.tasks ≡ 0
    → IsDistinct (created a d) × (running_count (created a d) ≡ running_count d)
created_lem a d v fresh = (
  λ x. ground (arith, v x, same x, count-append (λ b. x == b) d.tasks (a ∷ [])),
  ground (
    arith,
    count-append (runs (put d.store a new_task)) d.tasks (a ∷ []),
    count-put d.store a new_task d.tasks,
  ),
)
  where
    same : (x : ℕ) → (x ≡ a) → occurrences x d.tasks ≡ occurrences a d.tasks
    same x e = ap (λ y. occurrences y d.tasks) e

module _ (restores pauses : ℕ → Bool) where
  pub notify_running-IsSafe :
      (d : Downloader) → IsDistinct d → IsWithin d → IsSafe (notify_running restores pauses d)
  unfolding notify_running
  notify_running-IsSafe d v w =
      if_cases IsSafe (is_zero (remain_running_count d)) _ _ (λ _. (v, w)) λ e. next d.wait_tasks e
    where
      next :
          (q : List ℕ)
          → is_zero (remain_running_count d) ≡ false
          → IsSafe (elim q [
            | [] ↦ d
            | a ∷ rest ↦ (do_start restores pauses a (record d { wait_tasks = rest })).0
          ])
      next [] e = (v, w)
      next (a ∷ rest) e =
          Adds-IsSafe v (do_start-Adds restores pauses a (record d { wait_tasks = rest }) v)
            (ground arith)

  pub continue_all-IsSafe :
      (d : Downloader) → IsDistinct d → IsWithin d → IsSafe (continue_all restores pauses d).0
  unfolding continue_all
  continue_all-IsSafe d v w =
      let room = positive_part (remain_running_count d) in
      let (a, l) = share_idle-Adds d.tasks room d in
      let (chosen, d') = share_idle d.tasks room d in
      Adds-IsSafe v
        (Adds-trans room a (start_each-Adds restores pauses chosen d' (Adds-IsDistinct v a))
          (omega (arith, l)))
        (ground arith)

  pub pause_tasks-IsSafe :
      (ts : List ℕ) (d : Downloader)
      → IsDistinct d
      → IsWithin d
      → IsSafe (pause_tasks restores pauses ts d).0
  unfolding pause_tasks
  pause_tasks-IsSafe [] d v w = (v, w)
  pause_tasks-IsSafe (a ∷ rest) d v w =
      let ts = a ∷ rest in
      let a = pause_each-Adds restores pauses ts d in
      let w' = Adds-IsSafe v a (omega arith) in
      if_cases (λ (r : Downloader × Bool). IsSafe r.0) (pause_each restores pauses ts d).1 _ _
        (λ _. notify_running-IsSafe _ w'.0 w'.1) (λ _. w')

  pub pause_all-IsSafe :
      (d : Downloader) → IsDistinct d → IsWithin d → IsSafe (pause_all restores pauses d).0
  unfolding pause_all
  pause_all-IsSafe d v w =
      Adds-IsSafe v (pause_each-Adds restores pauses d.tasks (record d { wait_tasks = [] }))
        (omega arith)

  pub task_done-IsSafe :
      (a : ℕ) (d : Downloader) → IsDistinct d → IsWithin d → IsSafe (task_done restores pauses a d)
  unfolding task_done
  task_done-IsSafe a d v w =
      if_cases IsSafe (listed a d.tasks && (mark_task_done (d.store a)).1) _ _
        (λ e.
          notify_running-IsSafe _ v
            (Adds-IsSafe v (mark_done-Adds d a (ground arith)) (omega arith)).1)
        (λ _. (v, w))

  pub task_error-IsSafe :
      (a : ℕ) (d : Downloader) → IsDistinct d → IsWithin d → IsSafe (task_error restores pauses a d)
  unfolding task_error
  task_error-IsSafe a d v w =
      if_cases IsSafe (mark_task_error (d.store a)).1 _ _
        (λ e. notify_running-IsSafe _ v (Adds-IsSafe v (mark_error-Adds d a e) (omega arith)).1)
        (λ _. (v, w))

  pub do_create-IsSafe :
      (a : ℕ) (d : Downloader)
      → IsDistinct d
      → occurrences a d.tasks ≡ 0
      → IsWithin d
      → IsSafe (do_create restores pauses a d).0
  unfolding do_create
  do_create-IsSafe a d v fresh w =
      let (v', same) = created_lem a d v fresh in
      if_cases (λ (r : Downloader × Bool). IsSafe r.0)
        (is_zero (remain_running_count (created a d))) _ _
        (λ _. Adds-IsSafe v' (wait_in_queue-Adds a (created a d)) (omega (arith, same)))
        (λ e.
          Adds-IsSafe v' (do_start-Adds restores pauses a (created a d) v') (ground (arith, same)))
