-- ===== src/Gateway/Client.antt =====
-- packages/gateway/src/inline.ts: the client that joins the stores. A store's calls of its logger
-- append to the client's log. The order of `localeCompare` is an argument.
pub mod Leasing
pub mod Refused
mod Tests
use snapdragon.Prelude.{ℕ, String, Bool, Option, none, some, List, [], ◌∷◌, find, or_else, ◌==◌}
use snapdragon.Prelude.Json.{Json, str, obj, field, end}
use snapdragon.Prelude.Maps.{Map, get, set, values}
use snapdragon.Prelude.Sorting.{sort}
use snapdragon.Gateway.Effects.{Act, LogLine, Outcome, throws, returns, Throws}
use snapdragon.Gateway.Types.{JobSpec, JobStatus, Lease, JobLease}
use snapdragon.Gateway.Jobs
use snapdragon.Gateway.Jobs.{JobStore}
use snapdragon.Gateway.Workers
use snapdragon.Gateway.Workers.Records.{Registration, Heartbeat, Worker, WorkerStore}
use snapdragon.Gateway.Services
use snapdragon.Gateway.Services.{ServiceStore}
use snapdragon.Gateway.Services.Records.{ServiceSpec}
use snapdragon.Gateway.Mailboxes
use snapdragon.Gateway.Mailboxes.{ActorId, Envelope, ReceiveFilter, MailboxStore}
use snapdragon.Gateway.Events
use snapdragon.Gateway.Events.{EventInput, EventRecord, EventStore}
use snapdragon.Gateway.Tables
use snapdragon.Gateway.Tables.{TableStore, TableAccess}
use snapdragon.Gateway.Registry
use snapdragon.Gateway.Registry.{CapabilityRegistry}
use snapdragon.Gateway.Sandboxes
use snapdragon.Gateway.Sandboxes.{SandboxStore, SandboxLease}
use snapdragon.Gateway.Logs
use snapdragon.Gateway.Logs.{LogStore, LogInput, LogRecord}
use snapdragon.Gateway.Agents.{RuntimeDescriptor, normalize_runtime, kind_text, protocol_text}

pub record Client : Type 0 where
  pub mailboxes : MailboxStore
  pub services : ServiceStore
  pub capabilities : CapabilityRegistry
  pub agent_runtimes : Map RuntimeDescriptor
  pub tables : TableStore
  pub logs : LogStore
  pub events : EventStore
  pub workers : WorkerStore
  pub sandboxes : SandboxStore
  pub jobs : JobStore

abbrev pub empty : Client
empty = record {
  mailboxes = [];
  services = Services.empty;
  capabilities = [];
  agent_runtimes = [];
  tables = [];
  logs = [];
  events = [];
  workers = [];
  sandboxes = [];
  jobs = Jobs.empty;
}

-- A method of one store, called through the client.
abbrev pub with_jobs : {A : Type 0} → Act JobStore A → ℕ → Client → A × Client
with_jobs call now c =
    let (result, store, lines) = call c.jobs in
    (result, record c { jobs = store; logs = Logs.append_all lines now c.logs })

abbrev pub with_workers : {A : Type 0} → Act WorkerStore A → ℕ → Client → A × Client
with_workers call now c =
    let (result, store, lines) = call c.workers in
    (result, record c { workers = store; logs = Logs.append_all lines now c.logs })

abbrev pub with_events : {A : Type 0} → Act EventStore A → ℕ → Client → A × Client
with_events call now c =
    let (result, store, lines) = call c.events in
    (result, record c { events = store; logs = Logs.append_all lines now c.logs })

abbrev pub with_sandboxes : {A : Type 0} → Act SandboxStore A → ℕ → Client → A × Client
with_sandboxes call now c =
    let (result, store, lines) = call c.sandboxes in
    (result, record c { sandboxes = store; logs = Logs.append_all lines now c.logs })

unfoldable pub enqueue_job : JobSpec → String → ℕ → Client → JobStatus × Client
enqueue_job spec id now c = with_jobs (Jobs.enqueue spec id now) now c

unfoldable pub retry_job : String → ℕ → Client → Option JobStatus × Client
retry_job id now c = with_jobs (Jobs.retry id now) now c

-- `#leaseForJob`
unfoldable pub lease_for_job : String → Client → Option Lease
lease_for_job id c = find (λ lease. lease.job_id == id) (Jobs.active_leases c.jobs)

-- The end of a method that has changed a job: the worker of its lease is set free, if a job was
-- found.
unfoldable pub release_worker :
    Option Lease → ℕ → Option JobStatus × Client → Outcome (Option JobStatus) × Client
release_worker lease now (none, c) = (returns none, c)
release_worker lease now (some job, c) =
    let (outcome, c') = with_workers (Workers.clear_lease lease now) now c in
    elim outcome [ throws message ↦ (throws message, c') | returns _ ↦ (returns (some job), c') ]

unfoldable pub cancel_job : String → ℕ → Client → Outcome (Option JobStatus) × Client
unfolding lease_for_job release_worker
cancel_job id now c = release_worker (lease_for_job id c) now (with_jobs (Jobs.cancel id now) now c)

unfoldable pub complete_job :
    String → Option Json → ℕ → Client → Outcome (Option JobStatus) × Client
unfolding lease_for_job release_worker
complete_job id outcome now c =
    release_worker (lease_for_job id c) now (with_jobs (Jobs.complete id outcome now) now c)

unfoldable pub fail_job : String → String → ℕ → Client → Outcome (Option JobStatus) × Client
unfolding lease_for_job release_worker
fail_job id error now c =
    release_worker (lease_for_job id c) now (with_jobs (Jobs.fail id error now) now c)

-- The end of `acquireJob`: the worker is marked, if a job was granted.
unfoldable pub mark_granted :
    String → String → ℕ → Option JobLease × Client → Outcome (Option JobLease) × Client
mark_granted queue worker now (none, c) = (returns none, c)
mark_granted queue worker now (some granted, c) =
    let (outcome, c') = with_workers (Workers.mark_leased worker queue granted.lease now) now c in
    elim outcome [
      | throws message ↦ (throws message, c')
      | returns _ ↦ (returns (some granted), c')
    ]

unfoldable pub acquire_job :
    String → String → Option ℕ → ℕ → Client → Outcome (Option JobLease) × Client
unfolding mark_granted
acquire_job queue worker lease_ms now c =
    mark_granted queue worker now
      (with_jobs (Jobs.acquire queue worker (or_else lease_ms 300_000) now) now c)

unfoldable pub register_worker : Registration → ℕ → Client → Outcome Worker × Client
register_worker input now c = with_workers (Workers.register input now) now c

unfoldable pub heartbeat_worker : Heartbeat → ℕ → Client → Outcome (Option Worker) × Client
heartbeat_worker input now c = with_workers (Workers.heartbeat input now) now c

unfoldable pub append_event : EventInput → String → ℕ → Client → EventRecord × Client
append_event input fresh now c = with_events (Events.append input fresh now) now c

unfoldable pub cancel_event : String → ℕ → Client → Option EventRecord × Client
cancel_event id now c = with_events (Events.cancel id now) now c

unfoldable pub register_sandbox_lease : SandboxLease → ℕ → Client → Outcome SandboxLease × Client
register_sandbox_lease input now c = with_sandboxes (Sandboxes.register input now) now c

unfoldable pub list_sandbox_leases : ℕ → Client → List SandboxLease × Client
list_sandbox_leases now c = with_sandboxes (Sandboxes.list now) now c

unfoldable pub show_sandbox_lease : String → ℕ → Client → Outcome (Option SandboxLease) × Client
show_sandbox_lease id now c = with_sandboxes (Sandboxes.show id now) now c

unfoldable pub release_sandbox_lease : String → ℕ → Client → Outcome (Option SandboxLease) × Client
release_sandbox_lease id now c = with_sandboxes (Sandboxes.release id now) now c

unfoldable pub append_log : LogInput → ℕ → Client → LogRecord × Client
append_log input now c =
    let (entry, logs) = Logs.append_input input now c.logs in (entry, record c { logs = logs })

unfoldable pub send : Envelope → Client → Client
send envelope c = record c { mailboxes = Mailboxes.send envelope c.mailboxes }

unfoldable pub receive : ActorId → ReceiveFilter → Client → Option Envelope × Client
receive actor filter c =
    let (envelope, mailboxes) = Mailboxes.receive actor filter c.mailboxes in
    (envelope, record c { mailboxes = mailboxes })

unfoldable pub register_service : ServiceSpec → Bool → Client → Client
register_service spec has_runner c = record c {
  services = Services.register spec has_runner c.services;
}

unfoldable pub enable_service : String → Bool → Client → Outcome (Unit {0}) × Client
enable_service name enabled c =
    let (outcome, services) = Services.enable name enabled c.services in
    (outcome, record c { services = services })

unfoldable pub register_capability : String → ActorId → Client → Client
register_capability capability actor c = record c {
  capabilities = Registry.register capability actor c.capabilities;
}

unfoldable pub create_table : String → ActorId → Option TableAccess → Client → Bool × Client
create_table name owner access c =
    let (created, tables) = Tables.create name owner access c.tables in
    (created, record c { tables = tables })

unfoldable pub register_agent_runtime : RuntimeDescriptor → ℕ → Client → RuntimeDescriptor × Client
unfolding normalize_runtime
register_agent_runtime descriptor now c =
    let normalized = normalize_runtime descriptor in
    let line : LogLine = record {
      level = "info";
      target = some normalized.id;
      message = "agent runtime registered";
      data_of = some (
          obj (
            field "kind" (str (kind_text normalized.kind))
              (field "protocol" (str (protocol_text normalized.protocol)) end)));
    } in
    (
      normalized,
      record c {
        agent_runtimes = set normalized.id normalized c.agent_runtimes;
        logs = Logs.append_all (line ∷ []) now c.logs;
      },
    )

unfoldable pub show_agent_runtime : String → Client → Option RuntimeDescriptor
show_agent_runtime id c = get id c.agent_runtimes

unfoldable pub list_agent_runtimes : (String → String → Bool) → Client → List RuntimeDescriptor
list_agent_runtimes before c = sort (λ a b. before a.id b.id) (values c.agent_runtimes)
