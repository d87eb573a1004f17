-- ===== src/Gateway/Workers.antt =====
-- packages/gateway/src/inline-workers.ts: the workers that register, send heartbeats and hold
-- leases. A method that throws may have written some fields of a worker before it does.
pub mod Records
pub mod Checks
pub mod Valid
pub mod Leasing
pub mod Errors
mod Tests
use Prim.Native.String
use snapdragon.Prelude.{
  ℕ, String, Bool, true, false, not, Option, none, some, List, [], ◌∷◌, ltb, if◌then◌else◌, or_else,
  or_option, same_text,
}
use snapdragon.Prelude.Json.{Json}
use snapdragon.Prelude.Maps.{Map, get, set, values}
use snapdragon.Prelude.Sorting.{sort}
use snapdragon.Prelude.Texts.{is_empty, trim, is_id}
use snapdragon.Gateway.Effects.{Act, LogLine, Outcome, throws, returns, Throws, ◌>>=◌, after}
use snapdragon.Gateway.Types.{Lease}
use snapdragon.Gateway.Workers.Records.{
  WorkerState, idle, running, offline, Registration, Heartbeat, Worker, WorkerStore, worker_id,
  worker_field, optional_worker_field, worker_fields,
}

abbrev pub known : {A : Type 0} → (Worker → A) → Option Worker → Option A
known f none = none
known f (some worker) = some (f worker)

abbrev pub known_option : {A : Type 0} → (Worker → Option A) → Option Worker → Option A
known_option f none = none
known_option f (some worker) = f worker

-- The record that `register` builds: a worker that is known keeps its state and its lease.
unfoldable pub registered : Registration → String → Option Worker → ℕ → Outcome Worker
unfolding worker_field optional_worker_field worker_fields
registered input id existing now = do
  queue ←
      worker_field "queue"
        (or_else (or_option input.queue (known (λ w. w.queue) existing)) "default")
  runtime_id ← optional_worker_field "runtimeId" input.runtime_id
  service ← optional_worker_field "service" input.service
  capabilities ← worker_fields "capability" (or_else input.capabilities [])
  status ← optional_worker_field "status" input.status
  returns (record {
    id = id;
    queue = queue;
    runtime_id = runtime_id;
    service = service;
    capabilities = capabilities;
    state = or_else (known (λ w. w.state) existing) idle;
    registered_at_ms = or_else (known (λ w. w.registered_at_ms) existing) now;
    heartbeat_at_ms = now;
    current_job_id = known_option (λ w. w.current_job_id) existing;
    current_lease_id = known_option (λ w. w.current_lease_id) existing;
    lease_expires_at_ms = known_option (λ w. w.lease_expires_at_ms) existing;
    status = status;
    last_error = known_option (λ w. w.last_error) existing;
    metadata = input.metadata;
  })

-- The end of `register`: nothing is written if a field was refused.
abbrev pub keep_registered : Outcome Worker → Throws WorkerStore Worker
keep_registered (throws message) s = (throws message, s, [])
keep_registered (returns worker) s = (
  returns worker,
  set worker.id worker s,
  record { level = "info"; target = some worker.id; message = "worker registered"; data_of = none }
      ∷ [],
)

unfoldable pub register : Registration → ℕ → Throws WorkerStore Worker
unfolding worker_id registered
register input now s =
    keep_registered (worker_id input.id >>= λ id. registered input id (get id s) now) s

-- `if (value)` on a text
abbrev pub truthy : Option String → Option String
truthy none = none
truthy (some value) = if is_empty value then none else some value

-- A step of `heartbeat`: it changes the worker in place, or throws and leaves it.
abbrev pub Edit : Type 0
Edit = Worker → Outcome (Unit {0}) × Worker

abbrev pub edit_field : String → Option String → (String → Worker → Worker) → Edit
edit_field field none write worker = (returns tt, worker)
edit_field field (some value) write worker = elim (worker_field field value) [
  | throws message ↦ (throws message, worker)
  | returns normalized ↦ (returns tt, write normalized worker)
]

abbrev pub go_on : Outcome (Unit {0}) × Worker → Edit → Outcome (Unit {0}) × Worker
go_on (throws message, worker) rest = (throws message, worker)
go_on (returns _, worker) rest = rest worker

unfoldable pub run_edits : List Edit → Edit
run_edits [] worker = (returns tt, worker)
run_edits (edit ∷ edits) worker = go_on (edit worker) (run_edits edits)

abbrev pub write_queue : String → Worker → Worker
write_queue value worker = record worker { queue = value }

abbrev pub write_status : String → Worker → Worker
write_status value worker = record worker { status = some value }

abbrev pub write_error : String → Worker → Worker
write_error value worker = record worker { last_error = some value }

-- The assignments of `heartbeat`, in their order.
abbrev pub beat_edits : Heartbeat → ℕ → List Edit
beat_edits input now =
    (λ worker. (returns tt, record worker { state = or_else input.state worker.state }))
    ∷ edit_field "queue" (truthy input.queue) write_queue
    ∷ edit_field "status" (truthy input.status) write_status
    ∷ edit_field "lastError" (truthy input.last_error) write_error
    ∷ (λ worker. (
      returns tt,
      record worker { metadata = or_option input.metadata worker.metadata; heartbeat_at_ms = now },
    ))
    ∷ []

unfoldable pub beat : Heartbeat → ℕ → Edit
unfolding worker_field run_edits
beat input now = run_edits (beat_edits input now)

abbrev pub keep_beat : String → Outcome (Unit {0}) × Worker → Throws WorkerStore (Option Worker)
keep_beat id (throws message, worker) s = (throws message, set id worker s, [])
keep_beat id (returns _, worker) s = (returns (some worker), set id worker s, [])

unfoldable pub heartbeat : Heartbeat → ℕ → Throws WorkerStore (Option Worker)
unfolding worker_id beat
heartbeat input now s = elim (worker_id input.id) [
  | throws message ↦ (throws message, s, [])
  | returns id ↦ elim (get id s) [
    | none ↦ (returns none, s, [])
    | some worker ↦ keep_beat id (beat input now worker) s
  ]
]

unfoldable pub list : WorkerStore → List Worker
list s = sort (λ a b. ltb b.heartbeat_at_ms a.heartbeat_at_ms) (values s)

unfoldable pub show : String → WorkerStore → Outcome (Option Worker)
unfolding worker_id
show id s = do key ← worker_id id; returns (get key s)

abbrev pub bare_registration : String → String → Registration
bare_registration id queue = record {
  id = id;
  queue = some queue;
  runtime_id = none;
  service = none;
  capabilities = none;
  status = none;
  metadata = none;
}

abbrev pub leased_worker : String → Lease → ℕ → Worker → Worker
leased_worker queue lease now worker = record worker {
  queue = queue;
  state = running;
  current_job_id = some lease.job_id;
  current_lease_id = some lease.id;
  lease_expires_at_ms = some lease.expires_at_ms;
  heartbeat_at_ms = now;
}

-- `markLeased` once its worker is at hand, after the lines that its registration logged.
abbrev pub mark_worker :
    String
    → String
    → Lease
    → ℕ
    → Outcome Worker × WorkerStore × List LogLine
    → Outcome (Unit {0}) × WorkerStore × List LogLine
mark_worker id queue lease now (throws message, s, lines) = (throws message, s, lines)
mark_worker id queue lease now (returns worker, s, lines) = elim (worker_field "queue" queue) [
  | throws message ↦ (throws message, s, lines)
  | returns name ↦ (returns tt, set id (leased_worker name lease now worker) s, lines)
]

-- `this.#workers.get(id) ?? this.register({ id, queue })`
unfoldable pub worker_at : String → String → ℕ → Throws WorkerStore Worker
unfolding register
worker_at id queue now s = elim (get id s) [
  | none ↦ register (bare_registration id queue) now s
  | some worker ↦ (returns worker, s, [])
]

unfoldable pub mark_leased : String → String → Lease → ℕ → Throws WorkerStore (Unit {0})
unfolding worker_id worker_field worker_at
mark_leased value queue lease now s = elim (worker_id value) [
  | throws message ↦ (throws message, s, [])
  | returns id ↦ mark_worker id queue lease now (worker_at id queue now s)
]

abbrev pub idle_worker : ℕ → Worker → Worker
idle_worker now worker = record worker {
  state = idle;
  current_job_id = none;
  current_lease_id = none;
  lease_expires_at_ms = none;
  heartbeat_at_ms = now;
}

unfoldable pub clear_lease : Option Lease → ℕ → Throws WorkerStore (Unit {0})
unfolding worker_id
clear_lease none now s = (returns tt, s, [])
clear_lease (some lease) now s = elim (worker_id lease.worker) [
  | throws message ↦ (throws message, s, [])
  | returns id ↦ elim (get id s) [
    | none ↦ (returns tt, s, [])
    | some worker ↦
        if same_text worker.current_lease_id (some lease.id)
        then (returns tt, set id (idle_worker now worker) s, [])
        else (returns tt, s, [])
  ]
]
