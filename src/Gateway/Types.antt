-- ===== src/Gateway/Types.antt =====
-- packages/gateway/src/types.ts: jobs, leases and the records about them. Times are milliseconds,
-- counts and durations are natural numbers; a priority may be negative.
use snapdragon.Prelude.{ℕ, String, Bool, true, false, Option}
use snapdragon.Prelude.Int.{ℤ}
use snapdragon.Prelude.Json.{Json}

pub data JobState : Type 0 where
  pending running completed failed cancelled : JobState

-- `===` on states
abbrev pub same_state : JobState → JobState → Bool
same_state pending pending = true
same_state running running = true
same_state completed completed = true
same_state failed failed = true
same_state cancelled cancelled = true
same_state _ _ = false

-- What a caller asks for (`GatewayJobSpec`).
pub record JobSpec : Type 0 where
  pub kind : String
  pub queue : Option String
  pub payload : Option Json
  pub priority : Option ℤ
  pub max_attempts : Option ℕ
  pub timeout_ms : Option ℕ

-- The same with its defaults filled in.
pub record FullSpec : Type 0 where
  pub kind : String
  pub queue : String
  pub payload : Json
  pub priority : ℤ
  pub max_attempts : ℕ
  pub timeout_ms : Option ℕ

pub record JobStatus : Type 0 where
  pub id : String
  pub spec : FullSpec
  pub state : JobState
  pub attempts : ℕ
  pub created_at_ms : ℕ
  pub updated_at_ms : ℕ
  pub lease_id : Option String
  pub lease_expires_at_ms : Option ℕ
  pub last_error : Option String
  pub outcome : Option Json

pub record Lease : Type 0 where
  pub id : String
  pub job_id : String
  pub worker : String
  pub acquired_at_ms : ℕ
  pub expires_at_ms : ℕ

pub record QueueDepth : Type 0 where
  pub queue : String
  pub pending : ℕ
  pub running : ℕ

pub record JobLease : Type 0 where
  pub job : JobStatus
  pub lease : Lease
