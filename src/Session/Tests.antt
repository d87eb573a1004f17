-- ===== src/Session/Tests.antt =====
-- Runs of the sessions, and the theorems at concrete inputs.
use snapdragon.Prelude.{
  ℕ, ◌-◌, ◌≤◌, ◌<◌, ◌≡◌, refl, inl, false, none, some, List, [], ◌∷◌, ◌++◌, arith, length, map,
  Prefix,
}
use snapdragon.Prelude.Json.{Fields, str, end, field}
use snapdragon.Prelude.Units.{Units, units, decimal}
use snapdragon.Session.Records.{
  Message, MessageRecord, ChunkInput, ChunkRecord, SessionRecord, messaged, chunked, opened, noted,
  user, text, deterministic, WindowOptions, resolve_options,
}
use snapdragon.Prelude.Sorting.{sort}
use snapdragon.Session.Tokens.{
  estimate_record_tokens, Stringify, TokenCounter, heuristic_counter, record_to_message,
}
use snapdragon.Session.Summary.{summarize_messages}
use snapdragon.Session.Packing.{
  tail_start_store_id, latest_chunk_end, select_chunk_messages, has_tool_results_for,
  compaction_candidates, max,
}
use snapdragon.Session.Window.{
  ContextState, Plan, Reason, compacts, stops, sorted_messages, plan_compaction, compact_passes,
  compact_context, assemble_window,
}
use snapdragon.Session.Lines.{
  read_record_stats, update_stats, is_message_line, is_chunk_line, number_field,
}
use snapdragon.Session.Files.{
  Session, new_session, next_store_id, next_chunk_id, append_message, message_records,
  context_chunks, read_compacted_state, recent_messages, compact_session, create_session_file,
  opens, messages, AppendOptions,
}
use snapdragon.Session.Covering.{IsCovered, with_chunks}
use snapdragon.Session.Compaction.{compact_context-tail, compact_session-IsCovered}
use snapdragon.Session.Ending.{compact_passes-end}
use snapdragon.Session.History.{
  stays, says, IsNumbered, Reaches-IsNumbered, create_session_file-miscounts,
  read_compacted_state-same,
}
use snapdragon.Session.Prefixes.{select_chunk_messages-Prefix}
use snapdragon.Session.Reading.{latest, recent_messages-latest}
use snapdragon.Session.Bounds.{
  summarize_messages-le, compaction_candidates-all, calling, dangling_call_left,
}

abbrev blank : Stringify
blank = record { value = λ v. units "{}"; calls = λ c. [] }

-- Each message costs 100 tokens and each summary 7.
abbrev flat : TokenCounter
flat = record { count_string = λ s. 7; count_message = λ m. 100 }

abbrev says_hi : ℕ → MessageRecord
says_hi id = record {
  store_id = id;
  role = user;
  content = text (units "hi");
  tool_call_id = none;
  tool_calls = none;
  thinking = none;
  created_at = 0;
  meta = none;
}

abbrev some_options : WindowOptions
some_options = record {
  enabled = none;
  fresh_tail_count = some 1;
  max_request_tokens = none;
  chunk_target_tokens = some 200;
  summary_target_tokens = none;
  min_chunk_messages = some 2;
  max_compaction_passes = none;
}

abbrev three : List MessageRecord
three = says_hi 1 ∷ says_hi 2 ∷ says_hi 3 ∷ []

abbrev state : ContextState
state = with_chunks three []

abbrev planned : Plan → ChunkInput
planned (compacts input) = input
planned (stops why) = record {
  range_start = 0;
  range_end = 0;
  summary_text = [];
  source_token_count = 0;
  summary_token_count = 0;
  level = deterministic;
  created_by_model = none;
  meta = none;
}

abbrev first_plan : ChunkInput
first_plan = planned (plan_compaction blank state (resolve_options some_options) flat)

first_plan_range : (first_plan.range_start ≡ 1) × (first_plan.range_end ≡ 2)
unfolding plan_compaction resolve_options sort estimate_record_tokens
first_plan_range = (refl, refl)

-- A session with two messages in its file.
abbrev message : Message
message = record {
  role = user;
  content = text (units "hi");
  tool_calls = none;
  tool_call_id = none;
  thinking = none;
}

abbrev plain : AppendOptions
plain = record { created_at = none; meta = none }

-- The parts of the written lines that opening a file looks at, and the meta data that this file has.
abbrev lines : SessionRecord → Units
lines (messaged r) =
    units "{\"type\":\"message\",\"store_id\":" ++ (decimal r.store_id ++ units "}")
lines (chunked c) =
    units "{\"type\":\"context_chunk\",\"chunk_id\":" ++ (decimal c.chunk_id ++ units "}")
lines (opened o) = units "{\"type\":\"session_open\",\"meta\":{\"type\":\"message\"}}"
lines (noted m) = units "{\"type\":\"session_meta\"}"

abbrev tagged : Fields
tagged = field "type" (str "message") end

abbrev fresh : Session
fresh = new_session lines "s" []

abbrev one_said : Session
one_said = (append_message 5 message plain fresh).1

abbrev two_said : Session
two_said = (append_message 6 message plain one_said).1

two_said_counts : (two_said.next_store_id ≡ 3) × (two_said.message_count ≡ 2)
unfolding append_message new_session
two_said_counts = (refl, refl)

fresh-IsNumbered : IsNumbered fresh
unfolding new_session message_records context_chunks next_store_id next_chunk_id
fresh-IsNumbered = ((refl, refl, refl), tt, tt, tt, tt)

Reaches-IsNumbered_example : IsNumbered two_said
Reaches-IsNumbered_example =
    Reaches-IsNumbered fresh two_said
      (says 6 message plain fresh one_said (says 5 message plain fresh fresh (stays fresh)))
      fresh-IsNumbered

abbrev file : List SessionRecord
file = messaged (says_hi 1) ∷ messaged (says_hi 2) ∷ messaged (says_hi 3) ∷ []

abbrev opened_on_file : Session
opened_on_file = new_session lines "s" file

lines_counted : (opened_on_file.next_store_id ≡ 4) × (opened_on_file.message_count ≡ 3)
unfolding new_session read_record_stats update_stats is_message_line is_chunk_line number_field
    decimal
lines_counted = (refl, refl)

-- A file whose meta data name a type is counted as one with a message.
create_session_file-miscounts_example :
    (s : Session) × (create_session_file lines 5 "s" (some tagged) none ≡ opens s)
    × (s.message_count ≡ 1)
    × ((messages s).0 ≡ [])
    × ((messages s).1.message_count ≡ 0)
unfolding units
create_session_file-miscounts_example =
    create_session_file-miscounts lines 5 "s" (some tagged)
      (units "{\"type\":\"session_open\",\"meta\":{") (units "}}") refl

read_compacted_state-same_example :
    (assemble_window (read_compacted_state file) (resolve_options some_options) flat).messages
    ≡ (assemble_window
        (record { messages = message_records file; chunks = context_chunks file })
        (resolve_options some_options)
        flat).messages
unfolding resolve_options message_records
read_compacted_state-same_example =
    read_compacted_state-same file (resolve_options some_options) flat refl
      ((omega arith, (omega arith, tt)), ((omega arith, tt), (tt, tt)))

compact_session-IsCovered_example :
    (message_records (compact_session blank (λ t. 0) some_options opened_on_file).1.file
      ≡ message_records opened_on_file.file)
    × IsCovered
        (message_records opened_on_file.file)
        (context_chunks (compact_session blank (λ t. 0) some_options opened_on_file).1.file)
unfolding new_session message_records context_chunks latest_chunk_end
compact_session-IsCovered_example =
    compact_session-IsCovered blank (λ t. 0) some_options opened_on_file
      (inl (omega arith), (inl (omega arith), (inl (omega arith), tt)))

-- A file that is a list of chunks.
abbrev logs : ChunkInput → List ChunkRecord → ChunkRecord × List ChunkRecord
logs input chunks =
    let c : ChunkRecord = record {
      chunk_id = length chunks;
      range_start = input.range_start;
      range_end = input.range_end;
      summary_text = input.summary_text;
      source_token_count = input.source_token_count;
      summary_token_count = input.summary_token_count;
      created_at = 0;
      level = input.level;
      created_by_model = none;
      meta = none;
    } in
    (c, chunks ++ c ∷ [])

compact_context-tail_example :
    latest_chunk_end
      (state.chunks ++ (compact_context blank some_options flat logs state []).0.chunks)
    < (says_hi 3).store_id
unfolding sorted_messages resolve_options tail_start_store_id latest_chunk_end sort
compact_context-tail_example =
    compact_context-tail blank some_options flat logs state [] (says_hi 3) (λ input s. (refl, refl))
      (omega arith) (inl refl) (omega arith)

compact_passes-end_example :
    (why : Reason) × ((compact_passes blank
        (resolve_options some_options)
        flat
        logs
        4
        (with_chunks three [])
        []
        []).0.reason
      ≡ some why)
unfolding resolve_options latest_chunk_end
compact_passes-end_example =
    compact_passes-end blank (resolve_options some_options) flat logs (λ input s. (refl, refl))
      (omega arith) three 4 [] [] [] (omega arith)

select_chunk_messages-Prefix_example : Prefix (select_chunk_messages three 200 flat) three
select_chunk_messages-Prefix_example =
    select_chunk_messages-Prefix three 200 flat
      ((omega arith, (omega arith, tt)), ((omega arith, tt), (tt, tt)))

recent_messages-latest_example : recent_messages 2 opened_on_file ≡ (
  map record_to_message (latest 2 (message_records opened_on_file.file)),
  length (message_records opened_on_file.file) - 2,
)
recent_messages-latest_example = recent_messages-latest 2 opened_on_file

abbrev titled : Fields
titled = field "title" (str "plan") end

summarize_messages-le_example :
    (summarize_messages blank three 100 (heuristic_counter blank)).tokens ≤ max 100 46
summarize_messages-le_example = summarize_messages-le blank three 100

compaction_candidates-all_example :
    compaction_candidates
      (sorted_messages (read_compacted_state file).messages)
      (read_compacted_state file).chunks
      (record (resolve_options some_options) { fresh_tail_count = 3 })
    ≡ (read_compacted_state file).messages
unfolding read_compacted_state message_records
compaction_candidates-all_example =
    compaction_candidates-all file (record (resolve_options some_options) { fresh_tail_count = 3 })
      ((omega arith, (omega arith, tt)), ((omega arith, tt), (tt, tt))) (omega arith)

dangling_call_left_example :
    (select_chunk_messages (calling 1 "a" ∷ calling 2 "b" ∷ []) 200 flat ≡ calling 1 "a" ∷ [])
    × (has_tool_results_for (calling 1 "a" ∷ []) 0 ≡ false)
unfolding estimate_record_tokens
dangling_call_left_example = dangling_call_left 1 2 "a" "b" 200 flat (omega arith) (omega arith)
