-- ===== src/Session/Records.antt =====
-- packages/session/src/records.ts, with the messages of packages/host/src/types.ts and the options of
-- context-options.ts. Times are in thousandths of a second.
use snapdragon.Prelude.{ℕ, zero, suc, String, Bool, true, Option, none, some, List, or_else}
use snapdragon.Prelude.Json.{Json, Fields}
use snapdragon.Prelude.Units.{Units}

pub data Role : Type 0 where
  system user assistant tool : Role

pub record ToolCall : Type 0 where
  pub id : String
  pub name : String
  pub args_json : String

pub record ThinkingBlock : Type 0 where
  pub text : String
  pub signature : Option String
  pub encrypted_content : Option String

-- A text, or blocks, which are JSON objects here.
pub data Content : Type 0 where
  text : Units → Content
  blocks : List Json → Content

pub record Message : Type 0 where
  pub role : Role
  pub content : Content
  pub tool_calls : Option (List ToolCall)
  pub tool_call_id : Option String
  pub thinking : Option (List ThinkingBlock)

pub record OpenRecord : Type 0 where
  pub session_id : String
  pub created_at : ℕ
  pub schema_version : ℕ
  pub meta : Option Fields

pub record MessageRecord : Type 0 where
  pub store_id : ℕ
  pub role : Role
  pub content : Content
  pub tool_call_id : Option String
  pub tool_calls : Option (List ToolCall)
  pub thinking : Option (List ThinkingBlock)
  pub created_at : ℕ
  pub meta : Option Fields

pub record MetaRecord : Type 0 where
  pub updated_at : ℕ
  pub meta : Fields

pub data Level : Type 0 where
  deterministic summary : Level

-- What a compaction asks to be appended (`ContextChunkInput`). No model is undefined or null.
pub record ChunkInput : Type 0 where
  pub range_start : ℕ
  pub range_end : ℕ
  pub summary_text : Units
  pub source_token_count : ℕ
  pub summary_token_count : ℕ
  pub level : Level
  pub created_by_model : Option String
  pub meta : Option Fields

pub record ChunkRecord : Type 0 where
  pub chunk_id : ℕ
  pub range_start : ℕ
  pub range_end : ℕ
  pub summary_text : Units
  pub source_token_count : ℕ
  pub summary_token_count : ℕ
  pub created_at : ℕ
  pub level : Level
  pub created_by_model : Option String
  pub meta : Option Fields

pub data SessionRecord : Type 0 where
  opened : OpenRecord → SessionRecord
  messaged : MessageRecord → SessionRecord
  noted : MetaRecord → SessionRecord
  chunked : ChunkRecord → SessionRecord

pub record WindowOptions : Type 0 where
  pub enabled : Option Bool
  pub fresh_tail_count : Option ℕ
  pub max_request_tokens : Option ℕ
  pub chunk_target_tokens : Option ℕ
  pub summary_target_tokens : Option ℕ
  pub min_chunk_messages : Option ℕ
  pub max_compaction_passes : Option ℕ

pub record ResolvedOptions : Type 0 where
  pub enabled : Bool
  pub fresh_tail_count : ℕ
  pub max_request_tokens : ℕ
  pub chunk_target_tokens : ℕ
  pub summary_target_tokens : ℕ
  pub min_chunk_messages : ℕ
  pub max_compaction_passes : ℕ

abbrev pub default_options : ResolvedOptions
default_options = record {
  enabled = true;
  fresh_tail_count = 32;
  max_request_tokens = 120_000;
  chunk_target_tokens = 8_000;
  summary_target_tokens = 1_500;
  min_chunk_messages = 4;
  max_compaction_passes = 16;
}

unfoldable pub positive_integer : Option ℕ → ℕ → ℕ
positive_integer none fallback = fallback
positive_integer (some zero) fallback = fallback
positive_integer (some (suc n)) fallback = suc n

unfoldable pub resolve_options : WindowOptions → ResolvedOptions
unfolding positive_integer
resolve_options o = record {
  enabled = or_else o.enabled default_options.enabled;
  fresh_tail_count = positive_integer o.fresh_tail_count default_options.fresh_tail_count;
  max_request_tokens = positive_integer o.max_request_tokens default_options.max_request_tokens;
  chunk_target_tokens = positive_integer o.chunk_target_tokens default_options.chunk_target_tokens;
  summary_target_tokens =
      positive_integer o.summary_target_tokens default_options.summary_target_tokens;
  min_chunk_messages = positive_integer o.min_chunk_messages default_options.min_chunk_messages;
  max_compaction_passes =
      positive_integer o.max_compaction_passes default_options.max_compaction_passes;
}
