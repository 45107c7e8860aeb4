-- ===== src/Download/ExtractionQueue/Delivery.antt =====
-- The jobs of the queue, counted over any sequence of steps.
use pony_downloader.Common.{ℕ, ◌<◌, ◌≡◌, refl, true, List, [], ◌∷◌, some, arith, length}
use pony_downloader.Download.ExtractionQueue.{
  ExtractionQueue, new_extraction_queue, start, stop, enqueue_job, remove_pending_job, take_job,
  end_job, leave,
}
use pony_downloader.Download.ExtractionQueue.Signals.{
  copies, IsDelivered, close_each_done_lem, start-IsDelivered, stop-IsDelivered,
  enqueue_job-IsDelivered, remove_pending_job-IsDelivered, end_job-IsDelivered, leave-IsDelivered,
  take_job-IsDelivered,
}

-- The steps that lead from a new queue to q, with the jobs that were enqueued.
pub data Reach : List ℕ → ExtractionQueue → Type 0 where
  here : Reach [] new_extraction_queue
  started : {js : List ℕ} {q : ExtractionQueue} → Reach js q → Reach js (start q)
  stopped : {js : List ℕ} {q : ExtractionQueue} → Reach js q → Reach js (stop q)
  enqueued :
      {js : List ℕ} {q : ExtractionQueue} (j : ℕ) → Reach js q → Reach (j ∷ js) (enqueue_job j q)
  removed :
      {js : List ℕ} {q : ExtractionQueue} (id_of : ℕ → ℕ) (id : ℕ)
      → Reach js q
      → Reach js (remove_pending_job id_of id q).0
  took :
      {js : List ℕ} {q q' : ExtractionQueue}
      → Reach js q
      → length q.current < q.workers
      → take_job q ≡ some q'
      → Reach js q'
  ended : {js : List ℕ} {q : ExtractionQueue} (k : ℕ) → Reach js q → Reach js (end_job k q)
  left :
      {js : List ℕ} {q : ExtractionQueue}
      → Reach js q
      → length q.current < q.workers
      → q.shutdown ≡ true
      → Reach js (leave q)

-- In every queue that steps lead to, each job was signalled, is pending or is being executed as often
-- as it was enqueued, and no more than one worker runs and no more than one job is executed.
pub Reach-IsDelivered : {js : List ℕ} {q : ExtractionQueue} → Reach js q → IsDelivered js q
Reach-IsDelivered here = record { accounted = λ i. refl; alone = refl; one_at_a_time = omega arith }
Reach-IsDelivered (started p) = start-IsDelivered _ _ (Reach-IsDelivered p)
Reach-IsDelivered (stopped p) = stop-IsDelivered _ _ (Reach-IsDelivered p)
Reach-IsDelivered (enqueued j p) = enqueue_job-IsDelivered j _ _ (Reach-IsDelivered p)
Reach-IsDelivered (removed id_of id p) =
    remove_pending_job-IsDelivered id_of id _ _ (Reach-IsDelivered p)
Reach-IsDelivered (took p l h) = take_job-IsDelivered _ _ _ l h (Reach-IsDelivered p)
Reach-IsDelivered (ended k p) = end_job-IsDelivered k _ _ (Reach-IsDelivered p)
Reach-IsDelivered (left p l h) = leave-IsDelivered _ _ l (Reach-IsDelivered p)

idle_copies : (i : ℕ) (js : List ℕ) → length js ≡ 0 → copies i js ≡ 0
idle_copies i [] h = refl
idle_copies i (j ∷ js) h = absurd (omega (arith, h))

-- When the worker leaves after Stop, every job ever enqueued has been signalled as often as it was
-- enqueued: nobody waits for it for ever, and the channel of a job enqueued once is closed once.
pub leave_lem :
    {js : List ℕ} {q : ExtractionQueue}
    → Reach js q
    → length q.current < q.workers
    → (i : ℕ) → (leave q).closed i ≡ copies i js
unfolding leave
leave_lem {js = js} {q = q} p l i =
    let d = Reach-IsDelivered p in
    let idle : length q.current ≡ 0 = ground (arith, d.alone, l) in
    omega
      (arith, d.accounted i, close_each_done_lem q.jobs q.closed i, idle_copies i q.current idle)
