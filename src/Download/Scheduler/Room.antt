-- ===== src/Download/Scheduler/Room.antt =====
-- `Continue`: the pauses that make room for the tasks it starts.
use pony_downloader.Common.{
  ℕ, zero, suc, ◌+◌, ◌-◌, ◌≤◌, ◌≡◌, refl, ap, Bool, true, false, List, [], ◌∷◌, arith, ◌==◌, length,
  count, min, pos, ◌-ℤ◌, sub_ℕ, Bool-cases, if_cases, inl, inr,
}
use pony_downloader.Download.Task.{
  pause, wait, Task, is_running, prepare_pause, queue_paused, move_to,
}
use pony_downloader.Download.Scheduler.{
  Downloader, put, put_task, runs, running_count, remain_running_count, enqueue,
  pause_for_scheduling, to_queue, failed, continue_tasks, continue_some, share_out, make_room,
  positive_part,
}
use pony_downloader.Download.Scheduler.Counting.{
  occurrences, IsDistinct, count-put, Adds, Adds-trans, Adds-IsDistinct, Adds-refl, put_idle-Adds,
  start_each-Adds,
}
use pony_downloader.Download.Scheduler.Limit.{IsWithin, IsSafe, Adds-IsSafe, share_out-Adds}

-- Pausing a running task for the scheduler queues it, or fails.
module _ (restores pauses : ℕ → Bool) where
  data Paused (a : ℕ) (d : Downloader) : Type 0 where
    queued :
        (t : Task)
        → t.status ≡ wait
        → pause_for_scheduling restores pauses a d ≡ (put_task a t d, to_queue)
        → Paused a d
    stuck :
        (t : Task)
        → t.status ≡ pause
        → pause_for_scheduling restores pauses a d ≡ (put_task a t d, failed)
        → Paused a d

  running_moves :
      (t : Task) → is_running t.status ≡ true → prepare_pause t ≡ (move_to pause t, true)
  unfolding prepare_pause
  running_moves t r = ground arith

  queues :
      (t : Task)
      → queue_paused (move_to pause t).run_generation (move_to pause t)
        ≡ (record (move_to pause t) { status = wait }, true)
  unfolding queue_paused
  queues t = ground arith

  paused : (a : ℕ) (d : Downloader) → runs d.store a ≡ true → Paused a d
  unfolding pause_for_scheduling
  paused a d r = elim (Bool-cases (pauses a)) [
    | inl e ↦
        queued (record (move_to pause (d.store a)) { status = wait }) refl
          (rw (running_moves (d.store a) r, queues (d.store a), e) refl)
    | inr e ↦
        stuck (move_to pause (d.store a)) refl
          (rw (running_moves (d.store a) r, queues (d.store a), e) refl)
  ]

  -- Once a is paused it no longer runs, and the other tasks run as before.
  put_idle-count :
      (d : Downloader) (a : ℕ) (t : Task) (ts : List ℕ)
      → is_running t.status ≡ false
      → runs d.store a ≡ true
      → count (runs (put d.store a t)) ts + occurrences a ts ≡ count (runs d.store) ts
  put_idle-count d a t ts i r = ground (arith, count-put d.store a t ts)

  -- What `make_room` guarantees: no task more runs, and if it succeeds `left` fewer do.
  record MakesRoom (d : Downloader) (left : ℕ) (r : Downloader × Bool) : Type 0 where
    steps : Adds d 0 r.0
    makes_room : r.1 ≡ true → running_count r.0 + left ≤ running_count d

  room_made :
      {left : ℕ} {r : Downloader × Bool} (d : Downloader) (a : ℕ) (t : Task)
      → is_running t.status ≡ false
      → runs d.store a ≡ true
      → 1 ≤ occurrences a d.tasks
      → MakesRoom (enqueue a (put_task a t d)) left r
      → MakesRoom d (suc left) r
  room_made d a t i r o m =
      let step = put_idle-Adds d a t i in
      record {
        steps =
            Adds-trans 0 (record { same_tasks = refl; same_limit = refl; added = step.added })
              m.steps (omega arith);
        makes_room = λ ok. omega (arith, m.makes_room ok, put_idle-count d a t d.tasks i r, o);
      }

  suc_nonzero : (n : ℕ) → (suc n == 0) ≡ false
  suc_nonzero n = ground arith

  pred-suc : (n : ℕ) → suc n - 1 ≡ n
  pred-suc n = omega arith

  make_room_lem :
      (ts : List ℕ) (left : ℕ) (d : Downloader)
      → ((x : ℕ) → occurrences x ts ≤ 1)
      → ((x : ℕ) → occurrences x ts ≤ occurrences x d.tasks)
      → left ≤ count (runs d.store) ts
      → MakesRoom d left (make_room restores pauses ts left d)
  unfolding make_room
  make_room_lem [] left d v s l = record {
    steps = Adds-refl d 0;
    makes_room = λ _. omega (arith, l);
  }
  make_room_lem (a ∷ rest) zero d v s l = record {
    steps = Adds-refl d 0;
    makes_room = λ _. omega arith;
  }
  make_room_lem (a ∷ rest) (suc left) d v s l =
      let v' : (x : ℕ) → occurrences x rest ≤ 1 = λ x. ground (arith, v x) in
      let s' : (x : ℕ) → occurrences x rest ≤ occurrences x d.tasks = λ x. ground (arith, s x) in
      elim (Bool-cases (runs d.store a)) [
        | inl r ↦ elim (paused a d r) [
          | queued t w e ↦
              let i = ap is_running w in
              rw (suc_nonzero left, r, e, pred-suc left, e)
                (room_made d a t i r (ground (arith, s a)) (
                  make_room_lem rest left (enqueue a (put_task a t d)) v' s'
                    (ground (arith, v a, put_idle-count d a t rest i r))))
          | stuck t w e ↦
              rw (suc_nonzero left, r, e, e)
                (record {
                  steps = put_idle-Adds d a t (ap is_running w);
                  makes_room = λ ok. absurd (ground arith);
                })
        ]
        | inr r ↦
            rw (suc_nonzero left, r, make_room)
              (make_room_lem rest (suc left) d v' s' (ground arith))
      ]

  -- what `Continue` needs is what `MaxRunning` lacks
  room_needed :
      (need most runs : ℕ)
      → need ≤ most
      → (positive_part (pos need -ℤ sub_ℕ most runs) ≤ runs)
        × (runs + need ≤ most + positive_part (pos need -ℤ sub_ℕ most runs))
  unfolding ◌-ℤ◌
  room_needed need most runs h = ground arith

  continue_some-IsSafe :
      (ts : List ℕ) (d : Downloader)
      → IsDistinct d
      → IsWithin d
      → IsSafe (continue_some restores pauses ts d).0
  unfolding continue_some
  continue_some-IsSafe ts d v w =
      let need = min d.max_running (length ts) in
      let left = positive_part (pos need -ℤ remain_running_count d) in
      let (few, enough) = room_needed need d.max_running (running_count d) (ground arith) in
      let m = make_room_lem d.tasks left d v (λ x. omega arith) few in
      let (d', ok) = make_room restores pauses d.tasks left d in
      let (b, l) = share_out-Adds ts need d' in
      let (chosen, d'') = share_out ts need d' in
      let v' = Adds-IsDistinct (Adds-IsDistinct v m.steps) b in
      if_cases (λ (r : Downloader × Bool). IsSafe r.0) ok _ _
        (λ e.
          Adds-IsSafe (Adds-IsDistinct v m.steps)
            (Adds-trans need b (start_each-Adds restores pauses chosen d'' v') (omega (arith, l)))
            (omega (arith, m.makes_room e, enough, m.steps.same_limit)))
        (λ _. Adds-IsSafe v m.steps (omega arith))

  pub continue_tasks-IsSafe :
      (ts : List ℕ) (d : Downloader)
      → IsDistinct d
      → IsWithin d
      → IsSafe (continue_tasks restores pauses ts d).0
  unfolding continue_tasks
  continue_tasks-IsSafe [] d v w = (v, w)
  continue_tasks-IsSafe (a ∷ rest) d v w = continue_some-IsSafe (a ∷ rest) d v w
