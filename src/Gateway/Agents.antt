-- ===== src/Gateway/Agents.antt =====
-- packages/gateway/src/inline-agent-runtimes.ts and the descriptors of packages/gateway/src/types.ts:
-- the runtimes that agents run in.
use snapdragon.Prelude.{ℕ, String, Option, some, List, [], or_else}
use snapdragon.Prelude.Json.{Fields}
use snapdragon.Gateway.Services.Records.{ServiceWorkerSpec}

pub data RuntimeKind : Type 0 where
  sd codex hermes pi custom : RuntimeKind

pub data RuntimeProtocol : Type 0 where
  embedded command jsonl http stdio : RuntimeProtocol

pub data RuntimeIsolation : Type 0 where
  inherit profile channel sandbox : RuntimeIsolation

pub record RuntimeHealth : Type 0 where
  pub state : String
  pub checked_at_ms : ℕ
  pub message : Option String

pub record RuntimeDescriptor : Type 0 where
  pub id : String
  pub kind : RuntimeKind
  pub protocol : RuntimeProtocol
  pub label : Option String
  pub command : Option ServiceWorkerSpec
  pub supported_job_kinds : Option (List String)
  pub capabilities : Option (List String)
  pub isolation : Option RuntimeIsolation
  pub health : Option RuntimeHealth
  pub metadata : Option Fields

-- The spelling of the kinds and protocols, which the log records.
abbrev pub kind_text : RuntimeKind → String
kind_text sd = "sd"
kind_text codex = "codex"
kind_text hermes = "hermes"
kind_text pi = "pi"
kind_text custom = "custom"

abbrev pub protocol_text : RuntimeProtocol → String
protocol_text embedded = "embedded"
protocol_text command = "command"
protocol_text jsonl = "jsonl"
protocol_text http = "http"
protocol_text stdio = "stdio"

unfoldable pub normalize_runtime : RuntimeDescriptor → RuntimeDescriptor
normalize_runtime descriptor = record descriptor {
  supported_job_kinds = some (or_else descriptor.supported_job_kinds []);
  capabilities = some (or_else descriptor.capabilities []);
}
