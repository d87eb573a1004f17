-- ===== src/Gateway/Services/Records.antt =====
-- packages/gateway/src/types.ts: services, what describes them and what a run of one ends with.
use snapdragon.Prelude.{ℕ, String, Bool, Option, List}
use snapdragon.Prelude.Maps.{Map}

pub data ServiceState : Type 0 where
  starting running stopped failed : ServiceState

pub data ChildRestart : Type 0 where
  permanent transient temporary : ChildRestart

pub record BudgetConfig : Type 0 where
  pub max_fuel : Option ℕ
  pub timeout_ms : Option ℕ

pub record RestartIntensity : Type 0 where
  pub max_restarts : Option ℕ
  pub within_ms : Option ℕ

pub record ServiceWorkerSpec : Type 0 where
  pub command : String
  pub args : Option (List String)
  pub cwd : Option String
  pub env : Option (Map String)

pub record ServiceSpec : Type 0 where
  pub name : String
  pub enabled : Option Bool
  pub interval_ms : Option ℕ
  pub startup_delay_ms : Option ℕ
  pub budget : Option BudgetConfig
  pub restart : Option ChildRestart
  pub restart_intensity : Option RestartIntensity
  pub backoff_ms : Option ℕ
  pub max_backoff_ms : Option ℕ
  pub worker : Option ServiceWorkerSpec

pub record ServiceStatus : Type 0 where
  pub name : String
  pub enabled : Bool
  pub state : ServiceState
  pub runs : ℕ
  pub errors : ℕ
  pub consecutive_errors : Option ℕ
  pub last_run_at_ms : Option ℕ
  pub last_error : Option String
  pub last_summary : Option String
  pub restart_suppressed : Option Bool
  pub next_run_at_ms : Option ℕ
  pub last_exit_reason : Option String

-- `ServiceState` of the store: the runner is code of the caller, met only through how its runs end.
pub record Service : Type 0 where
  pub spec : ServiceSpec
  pub status : ServiceStatus
  pub has_runner : Bool

-- How the runner's promise settles: with a summary perhaps, or with the message of an error.
pub data RunResult : Type 0 where
  resolved : Option String → RunResult
  rejected : String → RunResult
