-- ===== src/Gateway/Workers/Records.antt =====
-- packages/gateway/src/types-workers.ts, and the checks of the texts that callers give, at the end of
-- packages/gateway/src/inline-workers.ts.
use Prim.Native.String
use snapdragon.Prelude.{ℕ, String, Option, none, some, List, [], ◌∷◌, if◌then◌else◌}
use snapdragon.Prelude.Json.{Json}
use snapdragon.Prelude.Maps.{Map, values}
use snapdragon.Prelude.Texts.{is_empty, trim, is_id}
use snapdragon.Gateway.Effects.{Outcome, throws, returns, ◌>>=◌}

pub data WorkerState : Type 0 where
  idle running offline : WorkerState

pub record Registration : Type 0 where
  pub id : String
  pub queue : Option String
  pub runtime_id : Option String
  pub service : Option String
  pub capabilities : Option (List String)
  pub status : Option String
  pub metadata : Option Json

pub record Heartbeat : Type 0 where
  pub id : String
  pub state : Option WorkerState
  pub queue : Option String
  pub status : Option String
  pub last_error : Option String
  pub metadata : Option Json

pub record Worker : Type 0 where
  pub id : String
  pub queue : String
  pub runtime_id : Option String
  pub service : Option String
  pub capabilities : List String
  pub state : WorkerState
  pub registered_at_ms : ℕ
  pub heartbeat_at_ms : ℕ
  pub current_job_id : Option String
  pub current_lease_id : Option String
  pub lease_expires_at_ms : Option ℕ
  pub status : Option String
  pub last_error : Option String
  pub metadata : Option Json

abbrev pub WorkerStore : Type 0
WorkerStore = Map Worker

unfoldable pub worker_id : String → Outcome String
worker_id value =
    let id = trim value in
    if is_empty id
    then throws "gateway worker id must be non-empty"
    else if is_id id
    then returns id
    else throws
        "gateway worker id must contain only letters, numbers, \".\", \"_\", \"-\", or \":\""

unfoldable pub worker_field : String → String → Outcome String
worker_field field value =
    let normalized = trim value in
    if is_empty normalized
    then throws (String.◌++◌ "gateway worker " (String.◌++◌ field " must be non-empty"))
    else returns normalized

unfoldable pub optional_worker_field : String → Option String → Outcome (Option String)
optional_worker_field field none = returns none
optional_worker_field field (some value) = do
  normalized ← worker_field field value
  returns (some normalized)

unfoldable pub worker_fields : String → List String → Outcome (List String)
worker_fields field [] = returns []
worker_fields field (value ∷ values) = worker_field field value >>= λ normalized.
    worker_fields field values >>= λ rest. returns (normalized ∷ rest)
