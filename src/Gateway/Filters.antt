-- ===== src/Gateway/Filters.antt =====
-- packages/gateway/src/query-filters.ts and the options of packages/gateway/src/types-runtime.ts: what
-- a snapshot of the gateway's world keeps of each store. A state is its spelling.
pub mod Selected
mod Tests
use snapdragon.Prelude.{
  ℕ, String, Bool, true, false, Option, none, some, List, [], ◌∷◌, filter, every, has_some, or_else,
  slice_last, ◌==◌,
}
use snapdragon.Gateway.Types.{
  JobStatus, JobState, Lease, QueueDepth, pending, running, completed, failed, cancelled,
}
use snapdragon.Gateway.Events.{EventRecord, EventState}
use snapdragon.Gateway.Logs.{LogRecord}
use snapdragon.Gateway.Workers.Records.{Worker, WorkerState}
use snapdragon.Gateway.Services.Records.{ServiceStatus, ServiceState}
use snapdragon.Gateway.Agents.{RuntimeDescriptor}

pub record WorkerProcess : Type 0 where
  pub id : String
  pub service : String
  pub pid : Option ℕ
  pub command : String
  pub args : List String
  pub cwd : Option String
  pub started_at_ms : ℕ
  pub finished_at_ms : Option ℕ
  pub timeout_ms : Option ℕ
  pub state : String
  pub exit_code : Option ℕ
  pub signal : Option String
  pub last_error : Option String

pub record WorldOptions : Type 0 where
  pub sections : Option (List String)
  pub target : Option String
  pub queue : Option String
  pub runtime_id : Option String
  pub service : Option String
  pub worker : Option String
  pub worker_state : Option String
  pub capability : Option String
  pub service_state : Option String
  pub service_enabled : Option Bool
  pub job_kind : Option String
  pub job_state : Option String
  pub event_kind : Option String
  pub event_state : Option String
  pub log_limit : Option ℕ
  pub tables : Option (List String)

abbrev pub job_state_text : JobState → String
job_state_text pending = "pending"
job_state_text running = "running"
job_state_text completed = "completed"
job_state_text failed = "failed"
job_state_text cancelled = "cancelled"

abbrev pub event_state_text : EventState → String
event_state_text EventState.pending = "pending"
event_state_text EventState.running = "running"
event_state_text EventState.done = "done"
event_state_text EventState.failed = "failed"
event_state_text EventState.cancelled = "cancelled"

abbrev pub worker_state_text : WorkerState → String
worker_state_text WorkerState.idle = "idle"
worker_state_text WorkerState.running = "running"
worker_state_text WorkerState.offline = "offline"

abbrev pub service_state_text : ServiceState → String
service_state_text ServiceState.starting = "starting"
service_state_text ServiceState.running = "running"
service_state_text ServiceState.stopped = "stopped"
service_state_text ServiceState.failed = "failed"

-- `by(expected, select)`, for texts that may be undefined
abbrev pub by : {T : Type 0} → Option String → (T → Option String) → T → Bool
by none select item = true
by (some expected) select item = elim (select item) [ none ↦ false | some v ↦ v == expected ]

abbrev pub same_flag : Bool → Bool → Bool
same_flag true b = b
same_flag false true = false
same_flag false false = true

-- The same for a flag.
abbrev pub by_flag : {T : Type 0} → Option Bool → (T → Bool) → T → Bool
by_flag none select item = true
by_flag (some expected) select item = same_flag (select item) expected

abbrev pub includes : {T : Type 0} → Option String → (T → List String) → T → Bool
includes none select item = true
includes (some expected) select item = has_some (λ v. v == expected) (select item)

abbrev pub all : {T : Type 0} → List (T → Bool) → T → Bool
all predicates item = every (λ predicate. predicate item) predicates

unfoldable pub filter_services : List ServiceStatus → WorldOptions → List ServiceStatus
filter_services services options =
    filter
      (all (
        by options.service (λ service. some service.name)
        ∷ by options.service_state (λ service. some (service_state_text service.state))
        ∷ by_flag options.service_enabled (λ service. service.enabled)
        ∷ []))
      services

unfoldable pub filter_agent_runtimes :
    List RuntimeDescriptor → WorldOptions → List RuntimeDescriptor
filter_agent_runtimes runtimes options =
    filter
      (all (
        by options.runtime_id (λ runtime. some runtime.id)
        ∷ includes options.capability (λ runtime. or_else runtime.capabilities [])
        ∷ []))
      runtimes

unfoldable pub filter_worker_processes : List WorkerProcess → WorldOptions → List WorkerProcess
filter_worker_processes processes options =
    filter
      (all (
        by options.worker (λ process. some process.id)
        ∷ by options.service (λ process. some process.service)
        ∷ by options.worker_state (λ process. some process.state)
        ∷ []))
      processes

unfoldable pub filter_workers : List Worker → WorldOptions → List Worker
filter_workers workers options =
    filter
      (all (
        by options.worker (λ worker. some worker.id)
        ∷ by options.queue (λ worker. some worker.queue)
        ∷ by options.runtime_id (λ worker. worker.runtime_id)
        ∷ by options.service (λ worker. worker.service)
        ∷ by options.worker_state (λ worker. some (worker_state_text worker.state))
        ∷ includes options.capability (λ worker. worker.capabilities)
        ∷ []))
      workers

unfoldable pub filter_jobs : List JobStatus → WorldOptions → List JobStatus
filter_jobs jobs options =
    filter
      (all (
        by options.target (λ job. some job.id)
        ∷ by options.queue (λ job. some job.spec.queue)
        ∷ by options.job_kind (λ job. some job.spec.kind)
        ∷ by options.job_state (λ job. some (job_state_text job.state))
        ∷ []))
      jobs

unfoldable pub filter_events : List EventRecord → WorldOptions → List EventRecord
filter_events events options =
    filter
      (all (
        by options.target (λ event. some (or_else event.target event.id))
        ∷ by options.event_kind (λ event. some event.kind)
        ∷ by options.event_state (λ event. some (event_state_text event.state))
        ∷ []))
      events

unfoldable pub filter_logs : List LogRecord → WorldOptions → List LogRecord
filter_logs logs options =
    slice_last (or_else options.log_limit 50) (filter (by options.target (λ log. log.target)) logs)

unfoldable pub filter_leases : List Lease → WorldOptions → List Lease
filter_leases leases options =
    filter
      (all (
        by options.target (λ lease. some lease.job_id)
        ∷ by options.worker (λ lease. some lease.worker)
        ∷ []))
      leases

unfoldable pub filter_queue_depths : List QueueDepth → WorldOptions → List QueueDepth
filter_queue_depths depths options = filter (by options.queue (λ depth. some depth.queue)) depths
