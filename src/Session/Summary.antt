-- ===== src/Session/Summary.antt =====
-- packages/session/src/context-summary.ts: the text that stands for compacted messages.
use snapdragon.Prelude.{
  ℕ, ◌+◌, ◌-◌, ◌*◌, ◌/◌, Bool, false, Option, none, some, List, [], ◌∷◌, ◌++◌, ltb, leb,
  if◌then◌else◌, length, map, take,
}
use snapdragon.Prelude.Texts.{is_space}
use snapdragon.Prelude.Units.{Units, units, no_units, trim, trim_end, join, code_points, decimal}
use snapdragon.Session.Records.{
  Role, system, user, assistant, tool, ToolCall, text, Message, MessageRecord, ChunkRecord,
}
use snapdragon.Session.Tokens.{Stringify, TokenCounter, content_to_text, role_text, newline}

abbrev pub chunk_intro : ChunkRecord → Units
chunk_intro r =
    units "Context summary for earlier canonical messages "
    ++ (decimal r.range_start ++ (units "-" ++ (decimal r.range_end ++ units ".")))

unfoldable pub render_chunk : ChunkRecord → Message
unfolding decimal join
render_chunk r = record {
  role = user;
  content = text (
      join newline (
        chunk_intro r
        ∷ units
            "The original messages remain in the session JSONL and can be expanded by tools later."
        ∷ []
        ∷ r.summary_text
        ∷ []));
  tool_calls = none;
  tool_call_id = none;
  thinking = none;
}

-- `truncateToChars`
unfoldable pub truncate_to_chars : Units → ℕ → Units
unfolding trim_end
truncate_to_chars value max_chars =
    if leb (length value) max_chars
    then value
    else trim_end (take (max_chars - 15) value) ++ units " [truncated]"

-- The loop of `flattenWhitespace`: what it has put out, and whether a space is pending.
unfoldable pub flatten_from : ℕ → Units → Bool → List Units → Units
flatten_from max_chars out pending [] = out
flatten_from max_chars out pending ([] ∷ points) = flatten_from max_chars out pending points
flatten_from max_chars out pending ((c ∷ p) ∷ points) =
    let spaced = if pending then out ++ b' ' ∷ [] else out in
    let next = spaced ++ c ∷ p in
    let skipped = flatten_from max_chars out (ltb 0 (length out)) points in
    let rest = flatten_from max_chars next false points in
    if is_space c then skipped else if leb max_chars (length next) then next else rest

unfoldable pub flatten_whitespace : Units → ℕ → Units
unfolding flatten_from code_points trim
flatten_whitespace value max_chars = trim (flatten_from max_chars [] false (code_points value))

unfoldable pub preview : Units → ℕ → Units
unfolding truncate_to_chars flatten_whitespace
preview value max_chars = truncate_to_chars (flatten_whitespace value (max_chars + 15)) max_chars

abbrev pub preview_limit : Role → ℕ
preview_limit tool = 420
preview_limit system = 720
preview_limit user = 720
preview_limit assistant = 720

-- ` tool_calls=…`, unless the names are missing or empty.
abbrev pub calls_suffix : Option (List ToolCall) → Units
calls_suffix none = []
calls_suffix (some calls) =
    let names = join (units ", ") (map (λ call. units call.name) calls) in
    if no_units names then [] else units " tool_calls=" ++ names

unfoldable pub summarize_record : Stringify → MessageRecord → Units
unfolding decimal join content_to_text preview
summarize_record json r =
    (units "#" ++ (decimal r.store_id ++ (units " " ++ role_text r.role)))
    ++ (calls_suffix r.tool_calls
        ++ (units ": " ++ preview (content_to_text json r.content) (preview_limit r.role)))

abbrev pub summary_header : ℕ → Units
summary_header n =
    units "Deterministic compacted summary of " ++ (decimal n ++ units " canonical message(s).")

pub record SummaryText : Type 0 where
  pub summary_text : Units
  pub tokens : ℕ

-- `Math.max(160, Math.floor(targetTokens * 3.5))`
abbrev pub target_chars : ℕ → ℕ
target_chars target_tokens =
    let chars = 7 * target_tokens / 2 in if ltb chars 160 then 160 else chars

unfoldable pub summarize_messages : Stringify → List MessageRecord → ℕ → TokenCounter → SummaryText
unfolding decimal join summarize_record truncate_to_chars
summarize_messages json records target_tokens counter =
    let body = join newline (map (summarize_record json) records) in
    let whole =
      truncate_to_chars (summary_header (length records) ++ (newline ++ body))
        (target_chars target_tokens) in
    record { summary_text = whole; tokens = counter.count_string whole }
