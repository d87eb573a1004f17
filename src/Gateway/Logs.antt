-- ===== src/Gateway/Logs.antt =====
-- packages/gateway/src/inline-logs.ts: the log, oldest record first.
pub mod Numbering
mod Tests
use snapdragon.Prelude.{
  ℕ, ◌+◌, String, Bool, ◌||◌, Option, none, some, List, [], ◌∷◌, ◌++◌, if◌then◌else◌, or_else,
  filter, length, same_text, slice_last, ◌==◌,
}
use snapdragon.Prelude.Json.{Json}
use snapdragon.Prelude.Texts.{is_empty}
use snapdragon.Gateway.Effects.{LogLine}

pub record LogRecord : Type 0 where
  pub id : ℕ
  pub at_ms : ℕ
  pub level : String
  pub target : Option String
  pub message : String
  pub data_of : Option Json

-- What a caller appends: the level and the time may be left out.
pub record LogInput : Type 0 where
  pub level : Option String
  pub target : Option String
  pub message : String
  pub data_of : Option Json
  pub at_ms : Option ℕ

abbrev pub LogStore : Type 0
LogStore = List LogRecord

-- `append`: the record is numbered by the length of the log.
abbrev pub log_record : LogLine → Option ℕ → ℕ → LogStore → LogRecord
log_record line at_ms now logs = record {
  id = length logs + 1;
  at_ms = or_else at_ms now;
  level = line.level;
  target = line.target;
  message = line.message;
  data_of = line.data_of;
}

unfoldable pub append : LogLine → Option ℕ → ℕ → LogStore → LogRecord × LogStore
append line at_ms now logs =
    let entry = log_record line at_ms now logs in (entry, logs ++ entry ∷ [])

abbrev pub input_line : LogInput → LogLine
input_line input = record {
  level = or_else input.level "info";
  target = input.target;
  message = input.message;
  data_of = input.data_of;
}

unfoldable pub append_input : LogInput → ℕ → LogStore → LogRecord × LogStore
unfolding append
append_input input now logs = append (input_line input) input.at_ms now logs

-- An undefined or empty target selects every record.
abbrev pub about : Option String → LogStore → LogStore
about none logs = logs
about (some target) logs =
    if is_empty target then logs else filter (λ log. same_text log.target (some target)) logs

unfoldable pub tail : Option String → Option ℕ → LogStore → List LogRecord
tail target limit logs = slice_last (or_else limit 20) (about target logs)

abbrev pub is_failure : LogRecord → Bool
is_failure log = (log.level == "error") || (log.level == "warn")

unfoldable pub failures : ℕ → LogStore → List LogRecord
failures limit logs = slice_last limit (filter is_failure logs)

-- The logger of a store called with these lines, one after the other.
unfoldable pub append_all : List LogLine → ℕ → LogStore → LogStore
unfolding append
append_all [] now logs = logs
append_all (line ∷ lines) now logs = append_all lines now (append line none now logs).1
