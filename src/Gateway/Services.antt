-- ===== src/Gateway/Services.antt =====
-- packages/gateway/src/inline-services.ts. A service is an object that runs hold on to while their
-- runner works, so the store is a heap of services and a map from names to their places in it. A
-- run is two steps, `begin_run` and `end_run`: other calls may come between them.
pub mod Records
pub mod Running
pub mod Counting
mod Tests
use Prim.Native.String
use snapdragon.Prelude.{
  ℕ, ◌+◌, String, Bool, true, false, Option, none, some, List, [], ◌∷◌, ◌++◌, if◌then◌else◌,
  or_else, length, get_elem?, put,
}
use snapdragon.Prelude.Maps.{Map, get, set, values}
use snapdragon.Gateway.Effects.{Outcome, throws, returns}
use snapdragon.Gateway.Services.Records.{
  ServiceState, running, stopped, failed, ServiceSpec, ServiceStatus, Service, RunResult, resolved,
  rejected,
}

pub record ServiceStore : Type 0 where
  pub names : Map ℕ
  pub heap : List Service

abbrev pub empty : ServiceStore
empty = record { names = []; heap = [] }

-- `serviceState`
unfoldable pub service_state : ServiceSpec → Bool → Service
service_state spec has_runner =
    let enabled = or_else spec.enabled true in
    record {
      spec = spec;
      has_runner = has_runner;
      status = record {
        name = spec.name;
        enabled = enabled;
        state = if enabled then running else stopped;
        runs = 0;
        errors = 0;
        consecutive_errors = some 0;
        last_run_at_ms = none;
        last_error = none;
        last_summary = none;
        restart_suppressed = some false;
        next_run_at_ms = none;
        last_exit_reason = none;
      };
    }

unfoldable pub register : ServiceSpec → Bool → ServiceStore → ServiceStore
register spec has_runner s = record {
  names = set spec.name (length s.heap) s.names;
  heap = s.heap ++ service_state spec has_runner ∷ [];
}

-- The service that a name stands for now.
unfoldable pub service_at : String → ServiceStore → Option Service
service_at name s = elim (get name s.names) [ none ↦ none | some r ↦ get_elem? s.heap r ]

abbrev pub enabled_service : Bool → Service → Service
enabled_service enabled service = record service {
  spec = record service.spec { enabled = some enabled };
  status = record service.status {
    enabled = enabled;
    state = if enabled then running else stopped;
    next_run_at_ms = none;
    restart_suppressed = some false;
  };
}

abbrev pub change : ℕ → (Service → Service) → ServiceStore → ServiceStore
change r f s = elim (get_elem? s.heap r) [
  | none ↦ s
  | some service ↦ record s { heap = put r (f service) s.heap }
]

unfoldable pub enable : String → Bool → ServiceStore → Outcome (Unit {0}) × ServiceStore
enable name enabled s = elim (get name s.names) [
  | none ↦ (throws (String.◌++◌ "Unknown gateway service: " name), s)
  | some r ↦ (returns tt, change r (enabled_service enabled) s)
]

-- What `run` does up to its `await`.
pub data Begun : Type 0 where
  unknown : Begun
  disabled : ServiceStatus → Begun
  started : ℕ → Begun

unfoldable pub begin_run : String → ServiceStore → Begun
begin_run name s = elim (get name s.names) [
  | none ↦ unknown
  | some r ↦ elim (get_elem? s.heap r) [
    | none ↦ unknown
    | some service ↦ if service.status.enabled then started r else disabled service.status
  ]
]

abbrev pub ran_well : Option String → ℕ → ServiceStatus → ServiceStatus
ran_well summary now status = record status {
  runs = status.runs + 1;
  consecutive_errors = some 0;
  last_run_at_ms = some now;
  last_summary = summary;
  state = running;
  last_exit_reason = some "ok";
}

abbrev pub ran_badly : String → ServiceStatus → ServiceStatus
ran_badly message status = record status {
  errors = status.errors + 1;
  consecutive_errors = some (or_else status.consecutive_errors 0 + 1);
  last_error = some message;
  last_exit_reason = some message;
  state = failed;
}

-- `runServiceState` once the runner is done; with no runner it resolves with no summary.
unfoldable pub finished_service : RunResult → ℕ → Service → Service
finished_service result now service = record service {
  status = elim (if service.has_runner then result else resolved none) [
    | resolved summary ↦ ran_well summary now service.status
    | rejected message ↦ ran_badly message service.status
  ];
}

-- What `run` does behind its `await`, to the service that it began with; it returns the status.
unfoldable pub end_run : ℕ → RunResult → ℕ → ServiceStore → Option ServiceStatus × ServiceStore
unfolding finished_service
end_run r result now s = elim (get_elem? s.heap r) [
  | none ↦ (none, s)
  | some service ↦ (
    some (finished_service result now service).status,
    record s { heap = put r (finished_service result now service) s.heap },
  )
]

abbrev pub statuses : List ℕ → List Service → List ServiceStatus
statuses [] heap = []
statuses (r ∷ rs) heap =
    let rest = statuses rs heap in
    elim (get_elem? heap r) [ none ↦ rest | some service ↦ service.status ∷ rest ]

unfoldable pub list : ServiceStore → List ServiceStatus
list s = statuses (values s.names) s.heap
