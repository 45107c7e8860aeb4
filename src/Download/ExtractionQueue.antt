-- ===== src/Download/ExtractionQueue.antt =====
-- pkg/download/extract_queue.go: the queue of archive extractions.
-- A job is a pointer, here its number; `id_of` is its field ID. `mu` makes each method one step, and
-- the worker takes three: it takes a job, it ends it, and it leaves. `workers` counts the worker
-- goroutines, `current` has the jobs they execute, and `closed` counts the `close` of each `done`
-- channel.
pub mod Signals
pub mod Delivery
use pony_downloader.Common.{
  ℕ, zero, suc, ◌+◌, ◌-◌, Bool, true, false, not, ◌&&◌, ◌||◌, List, [], ◌∷◌, ◌++◌, Option, none,
  some, ltb, ◌==◌, if◌then◌else◌, length, remove_at, get_elem?,
}

pub record ExtractionQueue : Type 0 where
  pub jobs : List ℕ
  pub running : Bool
  pub shutdown : Bool
  pub workers : ℕ
  pub current : List ℕ
  pub closed : ℕ → ℕ

-- `NewExtractionQueue`
abbrev pub new_extraction_queue : ExtractionQueue
new_extraction_queue = record {
  jobs = [];
  running = false;
  shutdown = false;
  workers = 0;
  current = [];
  closed = λ j. 0;
}

-- `close(job.done)`
abbrev pub close_done : ℕ → (ℕ → ℕ) → ℕ → ℕ
close_done j closed i = closed i + (if i == j then 1 else 0)

abbrev pub close_each_done : List ℕ → (ℕ → ℕ) → ℕ → ℕ
close_each_done [] closed = closed
close_each_done (j ∷ js) closed = close_each_done js (close_done j closed)

-- `Start`
unfoldable pub start : ExtractionQueue → ExtractionQueue
start q =
    if q.running then q else record q { running = true; shutdown = false; workers = q.workers + 1 }

-- `Stop` up to its `Wait`, which ends when the worker has left
unfoldable pub stop : ExtractionQueue → ExtractionQueue
stop q = if q.running then record q { shutdown = true } else q

-- `Enqueue`
unfoldable pub enqueue_job : ℕ → ExtractionQueue → ExtractionQueue
enqueue_job j q =
    if q.shutdown
    then record q { closed = close_done j q.closed }
    else record q { jobs = q.jobs ++ j ∷ [] }

-- the first pending job with the id, and the jobs without it
unfoldable pub find_pending : (ℕ → ℕ) → ℕ → List ℕ → Option (ℕ × List ℕ)
find_pending id_of id [] = none
find_pending id_of id (j ∷ js) =
    let rest = find_pending id_of id js in
    if id_of j == id
    then some (j, js)
    else (elim rest [ none ↦ none | some (found, others) ↦ some (found, j ∷ others) ])

-- `RemovePendingJob`
unfoldable pub remove_pending_job : (ℕ → ℕ) → ℕ → ExtractionQueue → ExtractionQueue × Bool
remove_pending_job id_of id q = elim (find_pending id_of id q.jobs) [
  | none ↦ (q, false)
  | some (j, others) ↦ (record q { jobs = others; closed = close_done j q.closed }, true)
]

-- `HasPendingJob`
abbrev pub has_pending_job : (ℕ → ℕ) → ℕ → List ℕ → Bool
has_pending_job id_of id [] = false
has_pending_job id_of id (j ∷ js) = id_of j == id || has_pending_job id_of id js

-- one round of the worker up to the job it executes; none while it waits or when it is to leave
unfoldable pub take_job : ExtractionQueue → Option ExtractionQueue
take_job q = if q.shutdown then none else (elim q.jobs [
  | [] ↦ none
  | j ∷ rest ↦ some (record q { jobs = rest; current = j ∷ q.current })
])

-- the job at place k of those being executed has ended
unfoldable pub end_job : ℕ → ExtractionQueue → ExtractionQueue
end_job k q = elim (get_elem? q.current k) [
  | none ↦ q
  | some j ↦ record q { current = remove_at q.current k; closed = close_done j q.closed }
]

-- the round in which the worker finds the shutdown and leaves
unfoldable pub leave : ExtractionQueue → ExtractionQueue
leave q = record q {
  jobs = [];
  running = false;
  workers = q.workers - 1;
  closed = close_each_done q.jobs q.closed;
}
