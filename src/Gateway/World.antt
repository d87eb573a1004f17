-- ===== src/Gateway/World.antt =====
-- packages/gateway/src/world.ts, and `status` of packages/gateway/src/inline.ts: a snapshot of the
-- stores side by side. The snapshot reads the stores with no other call in between.
pub mod Contents
mod Tests
use snapdragon.Prelude.{
  ℕ, String, Bool, Option, none, some, List, [], ◌∷◌, if◌then◌else◌, or_else, filter, has_some,
  ◌==◌,
}
use snapdragon.Gateway.Types.{JobStatus, Lease, QueueDepth, pending, running}
use snapdragon.Gateway.Jobs
use snapdragon.Gateway.Workers
use snapdragon.Gateway.Workers.Records.{Worker}
use snapdragon.Gateway.Services
use snapdragon.Gateway.Services.Records.{ServiceStatus}
use snapdragon.Gateway.Mailboxes
use snapdragon.Gateway.Events
use snapdragon.Gateway.Events.{EventRecord}
use snapdragon.Gateway.Tables
use snapdragon.Gateway.Tables.{TableSnapshot, TableStore}
use snapdragon.Gateway.Registry
use snapdragon.Gateway.Registry.{RegistrySnapshot}
use snapdragon.Gateway.Sandboxes.{SandboxLease}
use snapdragon.Gateway.Logs
use snapdragon.Gateway.Logs.{LogRecord}
use snapdragon.Gateway.Agents.{RuntimeDescriptor}
use snapdragon.Gateway.Client.{Client, list_agent_runtimes, list_sandbox_leases}
use snapdragon.Gateway.Filters.{
  WorldOptions, WorkerProcess, filter_services, filter_agent_runtimes, filter_workers,
  filter_worker_processes, filter_jobs, filter_events, filter_logs, filter_leases,
  filter_queue_depths,
}

pub record Status : Type 0 where
  pub runtime : String
  pub services : List ServiceStatus
  pub agent_runtimes : List RuntimeDescriptor
  pub workers : List Worker
  pub processes : ℕ
  pub worker_processes : List WorkerProcess
  pub tables : List String
  pub service_tasks : List String
  pub jobs_pending : ℕ
  pub jobs_running : ℕ
  pub active_leases : List Lease
  pub queue_depths : List QueueDepth
  pub recent_logs : List LogRecord
  pub recent_failures : List LogRecord
  pub uptime_ms : ℕ

-- `before` is the order of `localeCompare`.
unfoldable pub status : (String → String → Bool) → Client → Status
status before c = record {
  runtime = "inline-ts";
  services = Services.list c.services;
  agent_runtimes = list_agent_runtimes before c;
  workers = Workers.list c.workers;
  processes = Mailboxes.size c.mailboxes;
  worker_processes = [];
  tables = Tables.names c.tables;
  service_tasks = [];
  jobs_pending = Jobs.count pending c.jobs;
  jobs_running = Jobs.count running c.jobs;
  active_leases = Jobs.active_leases c.jobs;
  queue_depths = Jobs.queue_depths c.jobs;
  recent_logs = Logs.tail none (some 5) c.logs;
  recent_failures = Logs.failures 5 c.logs;
  uptime_ms = 0;
}

pub record WorldSnapshot : Type 0 where
  pub captured_at_ms : ℕ
  pub runtime : String
  pub status_then : Status
  pub services : List ServiceStatus
  pub agent_runtimes : List RuntimeDescriptor
  pub workers : List Worker
  pub worker_processes : List WorkerProcess
  pub jobs : List JobStatus
  pub events : List EventRecord
  pub logs : List LogRecord
  pub registry : RegistrySnapshot
  pub leases : List Lease
  pub queue_depths : List QueueDepth
  pub tables : List TableSnapshot
  pub sandboxes : List SandboxLease

abbrev pub all_sections : List String
all_sections =
    "services" ∷ "agentRuntimes" ∷ "workers" ∷ "workerProcesses" ∷ "jobs" ∷ "events" ∷ "logs"
    ∷ "registry" ∷ "leases" ∷ "queueDepths" ∷ "tables" ∷ "sandboxes" ∷ []

abbrev pub section_set : Option (List String) → List String
section_set none = all_sections
section_set (some []) = all_sections
section_set (some (section ∷ sections)) = section ∷ sections

-- `sections.has(section)`
abbrev pub has_section : List String → String → Bool
has_section sections section = has_some (λ s. s == section) sections

abbrev pub when_section : {A : Type 0} → List String → String → A → A → A
when_section sections section load fallback =
    if has_section sections section then load else fallback

abbrev pub empty_registry : RegistrySnapshot
empty_registry = record { names = []; capabilities = []; channels = [] }

unfoldable pub table_names : List String → Option (List String) → List String
table_names all_names none = all_names
table_names all_names (some []) = all_names
table_names all_names (some (first ∷ requested)) =
    filter (λ name. has_some (λ r. r == name) (first ∷ requested)) all_names

unfoldable pub table_snapshots : TableStore → List String → List TableSnapshot
table_snapshots s [] = []
table_snapshots s (name ∷ names) =
    let rest = table_snapshots s names in
    elim (Tables.snapshot name s) [ none ↦ rest | some snapshot ↦ snapshot ∷ rest ]

-- `buildGatewayWorldSnapshot`. Only the list of sandboxes changes the client.
unfoldable pub build_world :
    (String → String → Bool) → WorldOptions → ℕ → Client → WorldSnapshot × Client
build_world before options now c =
    let s = status before c in
    let sections = section_set options.sections in
    let logs = Logs.tail options.target (some (or_else options.log_limit 50)) c.logs in
    let (sandboxes, c') = when_section sections "sandboxes" (list_sandbox_leases now c) ([], c) in
    (
      record {
        captured_at_ms = now;
        runtime = s.runtime;
        status_then = s;
        services =
            filter_services (when_section sections "services" (Services.list c.services) [])
              options;
        agent_runtimes =
            filter_agent_runtimes
              (when_section sections "agentRuntimes" (list_agent_runtimes before c) []) options;
        workers =
            filter_workers (when_section sections "workers" (Workers.list c.workers) []) options;
        worker_processes =
            when_section sections "workerProcesses"
              (filter_worker_processes s.worker_processes options) [];
        jobs = filter_jobs (when_section sections "jobs" (Jobs.list_jobs c.jobs) []) options;
        events = filter_events (when_section sections "events" (Events.list c.events) []) options;
        logs = filter_logs (when_section sections "logs" logs []) options;
        registry =
            when_section sections "registry" (Registry.snapshot c.capabilities) empty_registry;
        leases = when_section sections "leases" (filter_leases s.active_leases options) [];
        queue_depths =
            when_section sections "queueDepths" (filter_queue_depths s.queue_depths options) [];
        tables =
            when_section sections "tables"
              (table_snapshots c.tables (table_names s.tables options.tables)) [];
        sandboxes = sandboxes;
      },
      c',
    )
