-- ===== src/Gateway/JobHelpers/Depths.antt =====
-- The queue depths count the jobs.
use snapdragon.Prelude.{
  ℕ, ◌+◌, String, ◌≡◌, refl, ap, ◌&&◌, none, some, List, [], ◌∷◌, arith, ◌==◌, eq_iff, eq_refl,
  if◌then◌else◌, or_else, Bool-cases, Option-cases, ◌≢◌, inl, inr, In, All, filter, length,
}
use snapdragon.Prelude.Maps.{
  Map, get, get-set, HasUniqueKeys, set-HasUniqueKeys, values-All, In-values,
}
use snapdragon.Gateway.Types.{JobState, JobStatus, QueueDepth, pending, running, same_state}
use snapdragon.Gateway.JobHelpers.{counted, count_job, count_jobs, queue_depths_from_jobs}

-- The jobs of a queue in a state.
pub jobs_in : String → JobState → List JobStatus → ℕ
jobs_in queue state jobs =
    length (filter (λ job. (job.spec.queue == queue) && same_state job.state state) jobs)

abbrev depth_at : String → Map QueueDepth → QueueDepth
depth_at queue m = or_else (get queue m) (record { queue = queue; pending = 0; running = 0 })

abbrev Grows : String → Map QueueDepth → Map QueueDepth → List JobStatus → Type 0
Grows queue before later jobs =
    ((depth_at queue later).pending ≡ (depth_at queue before).pending + jobs_in queue pending jobs)
    × ((depth_at queue later).running
        ≡ (depth_at queue before).running + jobs_in queue running jobs)

jobs_in_cons :
    (queue : String) (state : JobState) (job : JobStatus) (jobs : List JobStatus)
    → jobs_in queue state (job ∷ jobs)
      ≡ (if (job.spec.queue == queue) && same_state job.state state then 1 else 0)
        + jobs_in queue state jobs
unfolding jobs_in
jobs_in_cons queue state job jobs =
    elim (Bool-cases ((job.spec.queue == queue) && same_state job.state state)) [
      | inl e ↦ rw e (omega arith)
      | inr e ↦ rw e (omega arith)
    ]

depth_at-counted :
    (queue : String) (m : Map QueueDepth) (job : JobStatus)
    → depth_at queue (count_job m job)
      ≡ (if job.spec.queue == queue then counted m job else depth_at queue m)
unfolding count_job
depth_at-counted queue m job =
    rw (get-set job.spec.queue queue (counted m job) m)
      (elim (Bool-cases (job.spec.queue == queue)) [ inl e ↦ rw e | inr e ↦ rw e ])

counted-Grows :
    (queue : String) (m : Map QueueDepth) (job : JobStatus) (jobs : List JobStatus)
    (later : Map QueueDepth)
    → job.spec.queue ≡ queue
    → Grows queue (count_job m job) later jobs
    → Grows queue m later (job ∷ jobs)
counted-Grows queue m job jobs later same g = (
  ground (
    arith,
    depth_at-counted queue m job,
    jobs_in_cons queue pending job jobs,
    eq_iff job.spec.queue queue,
  ),
  ground (
    arith,
    depth_at-counted queue m job,
    jobs_in_cons queue running job jobs,
    eq_iff job.spec.queue queue,
  ),
)

count_job-Grows :
    (queue : String) (m : Map QueueDepth) (job : JobStatus) (jobs : List JobStatus)
    (later : Map QueueDepth)
    → Grows queue (count_job m job) later jobs
    → Grows queue m later (job ∷ jobs)
count_job-Grows queue m job jobs later g = elim (Bool-cases (job.spec.queue == queue)) [
  | inl same ↦ counted-Grows queue m job jobs later ((eq_iff job.spec.queue queue).0 same) g
  | inr other ↦
      let d : depth_at queue (count_job m job) ≡ depth_at queue m =
        rw (depth_at-counted queue m job, other) in
      (
        rw (jobs_in_cons queue pending job jobs, other, ← ap (λ (x : QueueDepth). x.pending) d)
            (omega (arith, g.0)),
        rw (jobs_in_cons queue running job jobs, other, ← ap (λ (x : QueueDepth). x.running) d)
            (omega (arith, g.1)),
      )
]

count_jobs-Grows :
    (queue : String) (m : Map QueueDepth) (jobs : List JobStatus)
    → Grows queue m (count_jobs m jobs) jobs
unfolding count_jobs jobs_in
count_jobs-Grows queue m [] = omega arith
count_jobs-Grows queue m (job ∷ jobs) =
    count_job-Grows queue m job jobs _ (count_jobs-Grows queue (count_job m job) jobs)

-- The entries of the table stand under their queues, one for each.
record IsTable (m : Map QueueDepth) : Type 0 where
  unique : HasUniqueKeys m
  keyed : (k : String) (d : QueueDepth) → get k m ≡ some d → d.queue ≡ k

counted-queue :
    (m : Map QueueDepth) (job : JobStatus) → IsTable m → (counted m job).queue ≡ job.spec.queue
counted-queue m job t = elim (Option-cases (get job.spec.queue m)) [
  | inl e ↦ rw e refl
  | inr (d, e) ↦ rw e (t.keyed job.spec.queue d e)
]

count_job-IsTable : (m : Map QueueDepth) (job : JobStatus) → IsTable m → IsTable (count_job m job)
unfolding count_job
count_job-IsTable m job t = record {
  unique = set-HasUniqueKeys job.spec.queue (counted m job) m t.unique;
  keyed = λ k d e. elim (Bool-cases (job.spec.queue == k)) [
    | inl same ↦
        let found : some (counted m job) ≡ some d =
          rw (get-set job.spec.queue k (counted m job) m, same) at e in
        cc (found, counted-queue m job t, (eq_iff job.spec.queue k).0 same)
    | inr other ↦ t.keyed k d (rw (get-set job.spec.queue k (counted m job) m, other) at e)
  ];
}

count_jobs-IsTable :
    (m : Map QueueDepth) (jobs : List JobStatus) → IsTable m → IsTable (count_jobs m jobs)
unfolding count_jobs
count_jobs-IsTable m [] t = t
count_jobs-IsTable m (job ∷ jobs) t =
    count_jobs-IsTable (count_job m job) jobs (count_job-IsTable m job t)

abbrev pub Counts : List JobStatus → QueueDepth → Type 0
Counts jobs d =
    (d.pending ≡ jobs_in d.queue pending jobs) × (d.running ≡ jobs_in d.queue running jobs)

-- Each queue depth gives the numbers of pending and of running jobs of its queue.
pub queue_depths-Counts : (jobs : List JobStatus) → All (Counts jobs) (queue_depths_from_jobs jobs)
unfolding queue_depths_from_jobs get
queue_depths-Counts jobs =
    let t = count_jobs-IsTable [] jobs (record { unique = tt; keyed = λ k d e. cc }) in
    values-All (Counts jobs) (count_jobs [] jobs)
      (λ k d e.
        let q = t.keyed k d e in
        let g = count_jobs-Grows k [] jobs in
        (ground (arith, q, g.0, e), ground (arith, q, g.1, e)))
      t.unique

count_jobs_keeps :
    (k : String) (m : Map QueueDepth) (jobs : List JobStatus)
    → get k m ≢ none
    → get k (count_jobs m jobs) ≢ none
unfolding count_jobs count_job
count_jobs_keeps k m [] h = h
count_jobs_keeps k m (job ∷ jobs) h =
    count_jobs_keeps k (count_job m job) jobs
      (rw (get-set job.spec.queue k (counted m job) m) (ground (arith, eq_iff job.spec.queue k)))

count_jobs_covers :
    (m : Map QueueDepth) (jobs : List JobStatus) (job : JobStatus)
    → In job jobs
    → get job.spec.queue (count_jobs m jobs) ≢ none
unfolding count_jobs count_job
count_jobs_covers m [] job h = elim h [ ]
count_jobs_covers m (j ∷ jobs) job (inl e) = rw e (
    count_jobs_keeps j.spec.queue (count_job m j) jobs
      (rw (get-set j.spec.queue j.spec.queue (counted m j) m, eq_refl) (λ n. cc n)))
count_jobs_covers m (j ∷ jobs) job (inr h) = count_jobs_covers (count_job m j) jobs job h

-- The queue of every job has a depth.
pub queue_depths_cover :
    (jobs : List JobStatus) (job : JobStatus)
    → In job jobs
    → (d : QueueDepth) × In d (queue_depths_from_jobs jobs) × (d.queue ≡ job.spec.queue)
unfolding queue_depths_from_jobs get
queue_depths_cover jobs job h =
    let t = count_jobs-IsTable [] jobs (record { unique = tt; keyed = λ k d e. cc }) in
    elim (Option-cases (get job.spec.queue (count_jobs [] jobs))) [
      | inl e ↦ absurd (count_jobs_covers [] jobs job h e)
      | inr (d, e) ↦
          (d, In-values job.spec.queue d (count_jobs [] jobs) e, t.keyed job.spec.queue d e)
    ]
