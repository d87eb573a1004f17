-- ===== src/Gateway/Jobs.antt =====
-- packages/gateway/src/inline-jobs.ts: the job queue, its leases and retries. Each method reads the
-- clock once, `now`; generated ids are arguments. Jobs are objects that a method changes in place,
-- which is a `set` at the job's own key.
pub mod Valid
pub mod Keeps
pub mod Lifecycle
pub mod Keyed
pub mod Outcomes
pub mod Rounds
pub mod Cancelled
mod Tests
use Prim.Native.String
use snapdragon.Prelude.{
  ℕ, ◌+◌, String, Option, none, some, List, [], ◌∷◌, ltb, if◌then◌else◌, or_else, filter, length,
}
use snapdragon.Prelude.Int.{pos}
use snapdragon.Prelude.Json.{Json, str, obj, field, end, or_empty_object}
use snapdragon.Prelude.Maps.{Map, get, set, delete, values}
use snapdragon.Prelude.Sorting.{sort}
use snapdragon.Prelude.Texts.{is_empty}
use snapdragon.Gateway.Effects.{Act, LogLine}
use snapdragon.Gateway.Types.{
  JobState, pending, running, completed, failed, cancelled, same_state, JobSpec, FullSpec,
  JobStatus, Lease, QueueDepth, JobLease,
}
use snapdragon.Gateway.JobHelpers.{
  sort_leases, next_pending_job, final_job_state, finish_message, log_level, queue_depths_from_jobs,
}

pub record JobStore : Type 0 where
  pub jobs : Map JobStatus
  pub leases : Map Lease

abbrev pub empty : JobStore
empty = record { jobs = []; leases = [] }

-- A line of the logger about the job `id`.
abbrev pub line : String → String → String → Option Json → LogLine
line level id message info = record {
  level = level;
  target = some id;
  message = message;
  data_of = info;
}

abbrev pub fill_spec : JobSpec → FullSpec
fill_spec spec = record {
  kind = spec.kind;
  queue = or_else spec.queue "default";
  payload = or_empty_object spec.payload;
  priority = or_else spec.priority (pos 0);
  max_attempts = or_else spec.max_attempts 1;
  timeout_ms = spec.timeout_ms;
}

abbrev pub new_job : JobSpec → String → ℕ → JobStatus
new_job spec id now = record {
  id = id;
  spec = fill_spec spec;
  state = pending;
  attempts = 0;
  created_at_ms = now;
  updated_at_ms = now;
  lease_id = none;
  lease_expires_at_ms = none;
  last_error = none;
  outcome = none;
}

unfoldable pub enqueue : JobSpec → String → ℕ → Act JobStore JobStatus
enqueue spec id now s =
    let status = new_job spec id now in
    (
      status,
      record s { jobs = set id status s.jobs },
      line "info" id "job enqueued" (some (obj (field "kind" (str spec.kind) end))) ∷ [],
    )

-- `[...jobs].sort((a, b) => b.updatedAtMs - a.updatedAtMs)`
unfoldable pub list_jobs : JobStore → List JobStatus
list_jobs s = sort (λ a b. ltb b.updated_at_ms a.updated_at_ms) (values s.jobs)

unfoldable pub show : String → JobStore → Option JobStatus
show id s = get id s.jobs

-- `#clearLease`: an undefined or empty id is falsy.
unfoldable pub clear_lease : JobStatus → Map Lease → Map Lease
clear_lease job leases = elim job.lease_id [
  | none ↦ leases
  | some id ↦ if is_empty id then leases else delete id leases
]

abbrev pub cancel_job : ℕ → JobStatus → JobStatus
cancel_job now job = record job {
  state = cancelled;
  updated_at_ms = now;
  lease_id = none;
  lease_expires_at_ms = none;
}

unfoldable pub cancel : String → ℕ → Act JobStore (Option JobStatus)
unfolding clear_lease
cancel id now s = elim (get id s.jobs) [
  | none ↦ (none, s, [])
  | some job ↦ (
    some (cancel_job now job),
    record { jobs = set id (cancel_job now job) s.jobs; leases = clear_lease job s.leases },
    line "warn" id "job cancelled" none ∷ [],
  )
]

-- `lease_${job.id}`
abbrev pub lease_key : String → String
lease_key id = String.◌++◌ "lease_" id

abbrev pub new_lease : JobStatus → String → ℕ → ℕ → Lease
new_lease job worker lease_ms now = record {
  id = lease_key job.id;
  job_id = job.id;
  worker = worker;
  acquired_at_ms = now;
  expires_at_ms = now + lease_ms;
}

abbrev pub lease_job : Lease → ℕ → JobStatus → JobStatus
lease_job lease now job = record job {
  state = running;
  attempts = job.attempts + 1;
  updated_at_ms = now;
  lease_id = some lease.id;
  lease_expires_at_ms = some lease.expires_at_ms;
}

-- The method's part after a job was found.
unfoldable pub grant : JobStatus → String → ℕ → ℕ → Act JobStore (Option JobLease)
grant job worker lease_ms now s =
    let lease = new_lease job worker lease_ms now in
    let leased = lease_job lease now job in
    (
      some (record { job = leased; lease = lease }),
      record { jobs = set job.id leased s.jobs; leases = set lease.id lease s.leases },
      line "info" job.id "job leased" none ∷ [],
    )

unfoldable pub acquire : String → String → ℕ → ℕ → Act JobStore (Option JobLease)
acquire queue worker lease_ms now s = elim (next_pending_job (values s.jobs) queue) [
  | none ↦ (none, s, [])
  | some job ↦ grant job worker lease_ms now s
]

abbrev pub finish_job : JobState → Option Json → Option String → ℕ → JobStatus → JobStatus
finish_job requested outcome error now job = record job {
  state = final_job_state job requested;
  outcome = outcome;
  last_error = error;
  updated_at_ms = now;
  lease_id = none;
  lease_expires_at_ms = none;
}

-- `#finish`
unfoldable pub finish :
    String → JobState → Option Json → Option String → ℕ → Act JobStore (Option JobStatus)
unfolding clear_lease final_job_state
finish id requested outcome error now s = elim (get id s.jobs) [
  | none ↦ (none, s, [])
  | some job ↦ if same_state job.state cancelled then (some job, s, []) else (
    some (finish_job requested outcome error now job),
    record {
      jobs = set id (finish_job requested outcome error now job) s.jobs;
      leases = clear_lease job s.leases;
    },
    line (log_level (final_job_state job requested)) id
          (finish_message (final_job_state job requested) error) none
        ∷ [],
  )
]

unfoldable pub complete : String → Option Json → ℕ → Act JobStore (Option JobStatus)
unfolding finish
complete id outcome now = finish id completed outcome none now

unfoldable pub fail : String → String → ℕ → Act JobStore (Option JobStatus)
unfolding finish
fail id error now = finish id failed none (some error) now

abbrev pub retry_job : ℕ → JobStatus → JobStatus
retry_job now job = record job {
  state = pending;
  outcome = none;
  updated_at_ms = now;
  lease_id = none;
  lease_expires_at_ms = none;
}

unfoldable pub retry : String → ℕ → Act JobStore (Option JobStatus)
unfolding clear_lease
retry id now s = elim (get id s.jobs) [
  | none ↦ (none, s, [])
  | some job ↦
      if same_state job.state failed
      then (
        some (retry_job now job),
        record { jobs = set id (retry_job now job) s.jobs; leases = clear_lease job s.leases },
        line "info" id "job retry requested" none ∷ [],
      )
      else (some job, s, [])
]

unfoldable pub count : JobState → JobStore → ℕ
count state s = length (filter (λ job. same_state job.state state) (values s.jobs))

unfoldable pub active_leases : JobStore → List Lease
active_leases s = sort_leases (values s.leases)

unfoldable pub queue_depths : JobStore → List QueueDepth
queue_depths s = queue_depths_from_jobs (values s.jobs)
