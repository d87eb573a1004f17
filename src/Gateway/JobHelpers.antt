-- ===== src/Gateway/JobHelpers.antt =====
-- packages/gateway/src/inline-job-helpers.ts: the order of the queue, the outcome of a failure, and
-- the counts and messages about jobs.
pub mod Choice
pub mod Depths
use Prim.Native.String
use snapdragon.Prelude.{
  ◌+◌, String, Bool, true, false, ◌&&◌, Option, none, some, List, [], ◌∷◌, ltb, if◌then◌else◌,
  or_else, filter, first, ◌==◌,
}
use snapdragon.Prelude.Int.{ltb_ℤ}
use snapdragon.Prelude.Maps.{Map, get, set, values}
use snapdragon.Prelude.Sorting.{sort}
use snapdragon.Prelude.Texts.{is_empty}
use snapdragon.Gateway.Types.{
  JobState, pending, running, failed, same_state, JobStatus, Lease, QueueDepth,
}

-- `sortLeases`: earliest expiry first.
abbrev pub expires_before : Lease → Lease → Bool
expires_before a b = ltb a.expires_at_ms b.expires_at_ms

unfoldable pub sort_leases : List Lease → List Lease
sort_leases leases = sort expires_before leases

-- `b.spec.priority - a.spec.priority || a.createdAtMs - b.createdAtMs` is negative.
abbrev pub is_served_before : JobStatus → JobStatus → Bool
is_served_before a b =
    if ltb_ℤ b.spec.priority a.spec.priority
    then true
    else if ltb_ℤ a.spec.priority b.spec.priority
    then false
    else ltb a.created_at_ms b.created_at_ms

abbrev pub is_candidate : String → JobStatus → Bool
is_candidate queue job = same_state job.state pending && (job.spec.queue == queue)

unfoldable pub next_pending_job : List JobStatus → String → Option JobStatus
next_pending_job jobs queue = first (sort is_served_before (filter (is_candidate queue) jobs))

unfoldable pub final_job_state : JobStatus → JobState → JobState
final_job_state job requested =
    if same_state requested failed && ltb job.attempts job.spec.max_attempts
    then pending
    else requested

abbrev pub retry_suffix : Option String → String
retry_suffix none = ""
retry_suffix (some error) = if is_empty error then "" else String.◌++◌ ": " error

unfoldable pub finish_message : JobState → Option String → String
finish_message pending error = String.◌++◌ "job failed; retry pending" (retry_suffix error)
finish_message _ error = or_else error "job finished"

unfoldable pub log_level : JobState → String
log_level failed = "error"
log_level pending = "warn"
log_level _ = "info"

-- The entry of the job's queue with the job counted.
abbrev pub counted : Map QueueDepth → JobStatus → QueueDepth
counted queues job =
    let depth : QueueDepth =
      or_else (get job.spec.queue queues)
        (record { queue = job.spec.queue; pending = 0; running = 0 }) in
    record {
      queue = depth.queue;
      pending = depth.pending + (if same_state job.state pending then 1 else 0);
      running = depth.running + (if same_state job.state running then 1 else 0);
    }

-- One round of the loop of `queueDepthsFromJobs`.
pub count_job : Map QueueDepth → JobStatus → Map QueueDepth
count_job queues job = set job.spec.queue (counted queues job) queues

pub count_jobs : Map QueueDepth → List JobStatus → Map QueueDepth
count_jobs queues [] = queues
count_jobs queues (job ∷ jobs) = count_jobs (count_job queues job) jobs

unfoldable pub queue_depths_from_jobs : List JobStatus → List QueueDepth
unfolding count_job count_jobs
queue_depths_from_jobs jobs = values (count_jobs [] jobs)
