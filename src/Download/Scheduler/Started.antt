-- ===== src/Download/Scheduler/Started.antt =====
-- What `Continue` promises of the tasks it is asked for.
use pony_downloader.Common.{
  ℕ, zero, suc, ◌+◌, ◌≤◌, ◌≡◌, refl, ap, ◌∙◌, Bool, true, false, ◌||◌, List, [], ◌∷◌, arith, ◌==◌,
  length, count-append, Bool-cases, if_cases, inl, inr, take, drop, min, pos, ◌-ℤ◌,
}
use pony_downloader.Download.Task.{Task, start_status, is_running, is_done}
use pony_downloader.Download.Scheduler.{
  Downloader, put, runs, remain_running_count, do_start, start_each, share_out, make_room,
  positive_part, continue_tasks, continue_some, wait_in_queue,
}
use pony_downloader.Download.Scheduler.Counting.{occurrences}

-- the task runs or is done
abbrev pub underway : (ℕ → Task) → ℕ → Bool
underway store a = runs store a || is_done (store a).status

start_underway :
    (t : Task) → (start_status t).1 ≡ true → is_running (start_status t).0.status ≡ true
unfolding start_status
start_underway t h = ground arith

already_underway :
    (t : Task) → (start_status t).1 ≡ false → is_running t.status || is_done t.status ≡ true
unfolding start_status
already_underway t h = ground arith

underway_at :
    (store : ℕ → Task) (x a : ℕ) → x ≡ a → underway store a ≡ true → underway store x ≡ true
underway_at store x a e u = ap (underway store) e ∙ u

min-suc : (n : ℕ) (a : ℕ) (ts : List ℕ) → min (suc n) (length (a ∷ ts)) ≡ suc (min n (length ts))
min-suc n a ts = omega arith

min_end : (n m : ℕ) → m ≡ 0 → min n m ≡ 0
min_end n m e = omega arith

min_start : (m : ℕ) → min 0 m ≡ 0
min_start m = omega arith

take-min : (n : ℕ) (ts : List ℕ) → take (min n (length ts)) ts ≡ take n ts
take-min zero ts = ap (λ m. take m ts) (min_start (length ts))
take-min (suc n) [] = ap (λ m. take {A = ℕ} m []) (min_end (suc n) 0 refl)
take-min (suc n) (a ∷ ts) =
    ap (λ m. take m (a ∷ ts)) (min-suc n a ts) ∙ ap (λ us. a ∷ us) (take-min n ts)

drop-min : (n : ℕ) (ts : List ℕ) → drop (min n (length ts)) ts ≡ drop n ts
drop-min zero ts = ap (λ m. drop m ts) (min_start (length ts))
drop-min (suc n) [] = ap (λ m. drop {A = ℕ} m []) (min_end (suc n) 0 refl)
drop-min (suc n) (a ∷ ts) = ap (λ m. drop m (a ∷ ts)) (min-suc n a ts) ∙ drop-min n ts

put-underway :
    (store : ℕ → Task) (a x : ℕ) (t : Task)
    → is_running t.status ≡ true
    → underway store x ≡ true
    → underway (put store a t) x ≡ true
put-underway store a x t r u = ground arith

put_same-underway :
    (store : ℕ → Task) (a : ℕ) (t : Task)
    → is_running t.status ≡ true
    → underway (put store a t) a ≡ true
put_same-underway store a t r = ground arith

share_out-take : (ts : List ℕ) (room : ℕ) (d : Downloader) → (share_out ts room d).0 ≡ take room ts
unfolding share_out
share_out-take [] zero d = refl
share_out-take [] (suc room) d = refl
share_out-take (a ∷ ts) zero d = share_out-take ts zero (wait_in_queue a d)
share_out-take (a ∷ ts) (suc room) d = ap (λ us. a ∷ us) (share_out-take ts room d)

share_out-drop :
    (ts : List ℕ) (room x : ℕ) (d : Downloader)
    → occurrences x (share_out ts room d).1.wait_tasks
      ≡ occurrences x d.wait_tasks + occurrences x (drop room ts)
unfolding share_out
share_out-drop [] zero x d = omega arith
share_out-drop [] (suc room) x d = omega arith
share_out-drop (a ∷ ts) zero x d = ground (
  arith,
  share_out-drop ts zero x (wait_in_queue a d),
  count-append (λ b. x == b) d.wait_tasks (a ∷ []),
)
share_out-drop (a ∷ ts) (suc room) x d = share_out-drop ts room x d

module _ (restores pauses : ℕ → Bool) where
  -- What starting a task keeps: the queue, and the tasks that are under way.
  record Starts (d d' : Downloader) : Type 0 where
    same_queue : d'.wait_tasks ≡ d.wait_tasks
    keeps : (x : ℕ) → underway d.store x ≡ true → underway d'.store x ≡ true

  do_start-Starts : (a : ℕ) (d : Downloader) → Starts d (do_start restores pauses a d).0
  unfolding do_start
  do_start-Starts a d =
      let same : Starts d d = record { same_queue = refl; keeps = λ x u. u } in
      if_cases (λ (r : Downloader × Bool). Starts d r.0) (start_status (d.store a)).1 _ _
        (λ e.
          if_cases (λ (r : Downloader × Bool). Starts d r.0) (restores a) _ _
            (λ _. record {
              same_queue = refl;
              keeps = λ x u. put-underway d.store a x _ (start_underway (d.store a) e) u;
            })
            (λ _. same))
        (λ _. same)

  do_start-underway :
      (a : ℕ) (d : Downloader)
      → (do_start restores pauses a d).1 ≡ true
      → underway (do_start restores pauses a d).0.store a ≡ true
  unfolding do_start
  do_start-underway a d =
      if_cases (λ (r : Downloader × Bool). r.1 ≡ true → underway r.0.store a ≡ true)
        (start_status (d.store a)).1 _ _
        (λ e.
          if_cases (λ (r : Downloader × Bool). r.1 ≡ true → underway r.0.store a ≡ true)
            (restores a) _ _ (λ _ _. put_same-underway d.store a _ (start_underway (d.store a) e))
            (λ _ ok. absurd (ground arith)))
        (λ e _. already_underway (d.store a) e)

  record StartsAll (ts : List ℕ) (d : Downloader) (r : Downloader × Bool) : Type 0 where
    starts : Starts d r.0
    all_run : r.1 ≡ true → (x : ℕ) → 1 ≤ occurrences x ts → underway r.0.store x ≡ true

  start_each-StartsAll :
      (ts : List ℕ) (d : Downloader) → StartsAll ts d (start_each restores pauses ts d)
  unfolding start_each
  start_each-StartsAll [] d = record {
    starts = record { same_queue = refl; keeps = λ x u. u };
    all_run = λ _ x o. absurd (omega arith);
  }
  start_each-StartsAll (a ∷ ts) d = elim (Bool-cases (do_start restores pauses a d).1) [
    | inl e ↦
        let one = do_start-Starts a d in
        let ih = start_each-StartsAll ts (do_start restores pauses a d).0 in
        let head = ih.starts.keeps a (do_start-underway a d e) in
        rw (e, start_each)
          (record {
            starts = record {
              same_queue = ih.starts.same_queue ∙ one.same_queue;
              keeps = λ x u. ih.starts.keeps x (one.keeps x u);
            };
            all_run = λ ok x o. elim (Bool-cases (x == a)) [
              | inl same ↦
                  underway_at
                    (start_each restores pauses ts (do_start restores pauses a d).0).0.store x a
                    (ground arith) head
              | inr other ↦ ih.all_run ok x (ground arith)
            ];
          })
    | inr e ↦
        rw (e, start_each)
          (record { starts = do_start-Starts a d; all_run = λ ok. absurd (ground (arith, ok, e)) })
  ]

  continue_some_lem :
      (selected : List ℕ) (d : Downloader)
      → (continue_some restores pauses selected d).1 ≡ true
      → (x : ℕ)
      → (1 ≤ occurrences x (take d.max_running selected)
          → underway (continue_some restores pauses selected d).0.store x ≡ true)
        × (1 ≤ occurrences x (drop d.max_running selected)
            → 1 ≤ occurrences x (continue_some restores pauses selected d).0.wait_tasks)
  unfolding continue_some
  continue_some_lem selected d =
      let need = min d.max_running (length selected) in
      let (d', ok) =
        make_room restores pauses d.tasks (positive_part (pos need -ℤ remain_running_count d)) d in
      let (chosen, d'') = share_out selected need d' in
      let s = start_each-StartsAll chosen d'' in
      let chosen_lem = share_out-take selected need d' ∙ take-min d.max_running selected in
      if_cases
        (λ (r : Downloader × Bool).
          r.1 ≡ true
          → (x : ℕ)
          → (1 ≤ occurrences x (take d.max_running selected) → underway r.0.store x ≡ true)
            × (1 ≤ occurrences x (drop d.max_running selected) → 1 ≤ occurrences x r.0.wait_tasks))
        ok _ _
        (λ _ done x. (
          λ o. s.all_run done x (omega (arith, o, ap (occurrences x) chosen_lem)),
          λ o. omega (
            arith,
            o,
            ap (occurrences x) (drop-min d.max_running selected),
            share_out-drop selected need x d',
            ap (occurrences x) s.starts.same_queue,
          ),
        ))
        (λ _ failed. absurd (ground (arith, failed)))

  -- When `Continue` returns no error, each of the first MaxRunning tasks it was asked for runs or is
  -- done, and each of the others stands in the queue.
  pub continue_tasks_lem :
      (selected : List ℕ) (d : Downloader)
      → (continue_tasks restores pauses selected d).1 ≡ true
      → (x : ℕ)
      → (1 ≤ occurrences x (take d.max_running selected)
          → underway (continue_tasks restores pauses selected d).0.store x ≡ true)
        × (1 ≤ occurrences x (drop d.max_running selected)
            → 1 ≤ occurrences x (continue_tasks restores pauses selected d).0.wait_tasks)
  unfolding continue_tasks
  continue_tasks_lem [] d ok = absurd (ground (arith, ok))
  continue_tasks_lem (a ∷ rest) d ok = continue_some_lem (a ∷ rest) d ok
