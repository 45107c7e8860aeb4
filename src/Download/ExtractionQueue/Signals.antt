-- ===== src/Download/ExtractionQueue/Signals.antt =====
-- What each step of the queue does to the signals of the jobs.
use pony_downloader.Common.{
  ℕ, zero, suc, ◌+◌, ◌≤◌, ◌<◌, ◌≡◌, refl, ap, ◌∙◌, sym, List, [], ◌∷◌, Option, none, some, ◌==◌,
  arith, if◌then◌else◌, Bool-cases, Option-cases, if_cases, ◌⊎◌, inl, inr, count, count-append,
  length, remove_at, get_elem?, subst,
}
use pony_downloader.Download.ExtractionQueue.{
  ExtractionQueue, close_done, close_each_done, start, stop, enqueue_job, find_pending,
  remove_pending_job, take_job, end_job, leave,
}

-- how often the job stands in the list
abbrev pub copies : ℕ → List ℕ → ℕ
copies i = count (λ j. i == j)

-- A job is signalled, pending or being executed as often as it was enqueued, and the worker is alone.
pub record IsDelivered (js : List ℕ) (q : ExtractionQueue) : Type 0 where
  pub accounted : (i : ℕ) → q.closed i + copies i q.jobs + copies i q.current ≡ copies i js
  pub alone : q.workers ≡ (if q.running then 1 else 0)
  pub one_at_a_time : length q.current ≤ q.workers

pub close_each_done_lem :
    (js : List ℕ) (closed : ℕ → ℕ) (i : ℕ) → close_each_done js closed i ≡ closed i + copies i js
close_each_done_lem [] closed i = omega arith
close_each_done_lem (j ∷ js) closed i =
    omega (arith, close_each_done_lem js (close_done j closed) i)

-- the copies of job i in what `find_pending` has found, the found job included
abbrev weigh : ℕ → Option (ℕ × List ℕ) → ℕ
weigh i none = 0
weigh i (some r) = copies i r.1 + (if i == r.0 then 1 else 0)

find_pending_lem :
    (id_of : ℕ → ℕ) (id : ℕ) (js : List ℕ) (i : ℕ)
    → (find_pending id_of id js ≡ none) ⊎ (weigh i (find_pending id_of id js) ≡ copies i js)
unfolding find_pending
find_pending_lem id_of id [] i = inl refl
find_pending_lem id_of id (j ∷ js) i = elim (Bool-cases (id_of j == id)) [
  | inl e ↦ inr (rw (e, find_pending) (omega arith))
  | inr e ↦ elim (Option-cases (find_pending id_of id js)) [
    | inl n ↦ inl (rw (e, n, find_pending) refl)
    | inr f ↦ elim (find_pending_lem id_of id js i) [
      | inl n ↦ inl (rw (e, n, find_pending) refl)
      | inr w ↦ inr (rw (e, f.1, find_pending) (omega (arith, w, ap (weigh i) f.1)))
    ]
  ]
]

found_lem :
    (id_of : ℕ → ℕ) (id : ℕ) (js : List ℕ) (i : ℕ) (r : ℕ × List ℕ)
    → find_pending id_of id js ≡ some r
    → copies i r.1 + (if i == r.0 then 1 else 0) ≡ copies i js
found_lem id_of id js i r h = elim (find_pending_lem id_of id js i) [
  | inl n ↦ absurd (ground (arith, n, h))
  | inr w ↦ sym (ap (weigh i) h) ∙ w
]

pub start-IsDelivered :
    (js : List ℕ) (q : ExtractionQueue) → IsDelivered js q → IsDelivered js (start q)
unfolding start
start-IsDelivered js q d =
    if_cases (IsDelivered js) q.running _ _ (λ _. d)
      (λ e. record {
        accounted = d.accounted;
        alone = ground (arith, d.alone, e);
        one_at_a_time = omega (arith, d.one_at_a_time);
      })

pub stop-IsDelivered :
    (js : List ℕ) (q : ExtractionQueue) → IsDelivered js q → IsDelivered js (stop q)
unfolding stop
stop-IsDelivered js q d =
    if_cases (IsDelivered js) q.running _ _
      (λ _. record { accounted = d.accounted; alone = d.alone; one_at_a_time = d.one_at_a_time })
      (λ _. d)

pub enqueue_job-IsDelivered :
    (j : ℕ) (js : List ℕ) (q : ExtractionQueue)
    → IsDelivered js q
    → IsDelivered (j ∷ js) (enqueue_job j q)
unfolding enqueue_job
enqueue_job-IsDelivered j js q d =
    if_cases (IsDelivered (j ∷ js)) q.shutdown _ _
      (λ _. record {
        accounted = λ i. omega (arith, d.accounted i);
        alone = d.alone;
        one_at_a_time = d.one_at_a_time;
      })
      (λ _. record {
        accounted = λ i. omega (arith, d.accounted i, count-append (λ k. i == k) q.jobs (j ∷ []));
        alone = d.alone;
        one_at_a_time = d.one_at_a_time;
      })

pub remove_pending_job-IsDelivered :
    (id_of : ℕ → ℕ) (id : ℕ) (js : List ℕ) (q : ExtractionQueue)
    → IsDelivered js q
    → IsDelivered js (remove_pending_job id_of id q).0
unfolding remove_pending_job
remove_pending_job-IsDelivered id_of id js q d =
    elim (Option-cases (find_pending id_of id q.jobs)) [
      | inl n ↦ rw (n, remove_pending_job) d
      | inr f ↦
          rw (f.1, remove_pending_job)
            (record {
              accounted = λ i. omega (arith, d.accounted i, found_lem id_of id q.jobs i f.0 f.1);
              alone = d.alone;
              one_at_a_time = d.one_at_a_time;
            })
    ]

count-remove_at :
    (i : ℕ) (js : List ℕ) (k j : ℕ)
    → get_elem? js k ≡ some j
    → (copies i (remove_at js k) + (if i == j then 1 else 0) ≡ copies i js)
      × (length (remove_at js k) ≤ length js)
count-remove_at i [] k j h = absurd (ground (arith, h))
count-remove_at i (x ∷ js) zero j h = (
  omega (arith, ap {B = ℕ} (λ o. elim o [ none ↦ 0 | some y ↦ if i == y then 1 else 0 ]) h),
  omega arith,
)
count-remove_at i (x ∷ js) (suc k) j h =
    let ih = count-remove_at i js k j h in (omega (arith, ih.0), omega (arith, ih.1))

pub end_job-IsDelivered :
    (k : ℕ) (js : List ℕ) (q : ExtractionQueue) → IsDelivered js q → IsDelivered js (end_job k q)
unfolding end_job
end_job-IsDelivered k js q d = elim (Option-cases (get_elem? q.current k)) [
  | inl n ↦ rw (n, end_job) d
  | inr f ↦
      rw (f.1, end_job)
        (record {
          accounted = λ i. omega (arith, d.accounted i, (count-remove_at i q.current k f.0 f.1).0);
          alone = d.alone;
          one_at_a_time = omega (arith, d.one_at_a_time, (count-remove_at 0 q.current k f.0 f.1).1);
        })
]

pub leave-IsDelivered :
    (js : List ℕ) (q : ExtractionQueue)
    → length q.current < q.workers
    → IsDelivered js q
    → IsDelivered js (leave q)
unfolding leave
leave-IsDelivered js q l d = record {
  accounted = λ i. omega (arith, d.accounted i, close_each_done_lem q.jobs q.closed i);
  alone = ground (arith, d.alone, l);
  one_at_a_time = omega (arith, l);
}

-- `take_job` moves the first pending job to those being executed.
record Takes (q q' : ExtractionQueue) : Type 0 where
  moved : (i : ℕ) → copies i q'.jobs + copies i q'.current ≡ copies i q.jobs + copies i q.current
  same_closed : (i : ℕ) → q'.closed i ≡ q.closed i
  same_workers : q'.workers ≡ q.workers
  same_running : q'.running ≡ q.running
  one_more : length q'.current ≡ suc (length q.current)

TakesWhatIsThere : ExtractionQueue → Option ExtractionQueue → Type 0
TakesWhatIsThere q none = Unit
TakesWhatIsThere q (some q') = Takes q q'

take_first :
    (q : ExtractionQueue) (js : List ℕ)
    → q.jobs ≡ js
    → TakesWhatIsThere q (elim js [
      | [] ↦ none
      | j ∷ rest ↦ some (record q { jobs = rest; current = j ∷ q.current })
    ])
unfolding TakesWhatIsThere
take_first q [] e = tt
take_first q (j ∷ rest) e = record {
  moved = λ i. omega (arith, ap (copies i) e);
  same_closed = λ i. refl;
  same_workers = refl;
  same_running = refl;
  one_more = refl;
}

take_job_lem : (q : ExtractionQueue) → TakesWhatIsThere q (take_job q)
unfolding take_job TakesWhatIsThere
take_job_lem q =
    if_cases (TakesWhatIsThere q) q.shutdown _ _ (λ _. tt) (λ _. take_first q q.jobs refl)

take_job-Takes : (q q' : ExtractionQueue) → take_job q ≡ some q' → Takes q q'
unfolding TakesWhatIsThere
take_job-Takes q q' h = subst (TakesWhatIsThere q) h (take_job_lem q)

pub take_job-IsDelivered :
    (js : List ℕ) (q q' : ExtractionQueue)
    → length q.current < q.workers
    → take_job q ≡ some q'
    → IsDelivered js q
    → IsDelivered js q'
take_job-IsDelivered js q q' l h d =
    let t = take_job-Takes q q' h in
    record {
      accounted = λ i. omega (arith, d.accounted i, t.moved i, t.same_closed i);
      alone = t.same_workers ∙ d.alone ∙ ap {B = ℕ} (λ b. if b then 1 else 0) (sym t.same_running);
      one_at_a_time = omega (arith, l, t.one_more, t.same_workers);
    }
