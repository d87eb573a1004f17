-- ===== src/Session/Window.antt =====
-- packages/session/src/context-window.ts and session-compaction.ts: the messages of one request, the
-- plan of a compaction, and its passes.
use snapdragon.Prelude.{
  ℕ, zero, suc, Bool, true, false, not, ◌||◌, Option, none, some, List, [], ◌∷◌, ◌++◌, ltb, leb,
  if◌then◌else◌, or_else, filter, length, map, first, last,
}
use snapdragon.Prelude.Sorting.{sort}
use snapdragon.Session.Records.{
  Message, MessageRecord, ChunkRecord, ChunkInput, deterministic, WindowOptions, ResolvedOptions,
  resolve_options,
}
use snapdragon.Session.Tokens.{Stringify, TokenCounter, estimate_messages_tokens, record_to_message}
use snapdragon.Session.Summary.{summarize_messages, render_chunk}
use snapdragon.Session.Packing.{
  latest_chunk_end, compaction_candidates, sum_record_tokens, select_chunk_messages,
}

pub record ContextState : Type 0 where
  pub messages : List MessageRecord
  pub chunks : List ChunkRecord

pub record Stats : Type 0 where
  pub chunk_count : ℕ
  pub canonical_message_count : ℕ
  pub visible_canonical_count : ℕ
  pub total_tokens : ℕ
  pub watermark : ℕ

pub record Assembly : Type 0 where
  pub messages : List Message
  pub stats : Stats

abbrev pub is_older : MessageRecord → MessageRecord → Bool
is_older a b = ltb a.store_id b.store_id

unfoldable pub sorted_messages : List MessageRecord → List MessageRecord
sorted_messages messages = sort is_older messages

abbrev pub is_earlier : ChunkRecord → ChunkRecord → Bool
is_earlier a b =
    if ltb a.range_start b.range_start
    then true
    else if ltb b.range_start a.range_start
    then false
    else ltb a.chunk_id b.chunk_id

unfoldable pub sorted_chunks : List ChunkRecord → List ChunkRecord
sorted_chunks chunks = sort is_earlier chunks

abbrev pub raw_assembly : List MessageRecord → TokenCounter → Assembly
raw_assembly messages counter =
    let assembled = map record_to_message messages in
    record {
      messages = assembled;
      stats = record {
        chunk_count = 0;
        canonical_message_count = length messages;
        visible_canonical_count = length messages;
        total_tokens = estimate_messages_tokens assembled counter;
        watermark = 0;
      };
    }

-- `assembleContextWindow`, of options that are resolved.
unfoldable pub assemble_window : ContextState → ResolvedOptions → TokenCounter → Assembly
unfolding sorted_messages sorted_chunks latest_chunk_end
assemble_window state options counter =
    let messages = sorted_messages state.messages in
    let chunks = sorted_chunks state.chunks in
    let watermark = latest_chunk_end chunks in
    let visible = filter (λ r. ltb watermark r.store_id) messages in
    let assembled = map render_chunk chunks ++ map record_to_message visible in
    if not options.enabled then raw_assembly messages counter else record {
      messages = assembled;
      stats = record {
        chunk_count = length chunks;
        canonical_message_count = length messages;
        visible_canonical_count = length visible;
        total_tokens = estimate_messages_tokens assembled counter;
        watermark = watermark;
      };
    }

pub data Reason : Type 0 where
  disabled no_messages below_target no_smaller : Reason

pub data Plan : Type 0 where
  compacts : ChunkInput → Plan
  stops : Reason → Plan

-- The id of a record that is there; else undefined, which is not reached, since at least one message
-- is selected.
abbrev pub id_of : Option MessageRecord → ℕ
id_of none = 0
id_of (some r) = r.store_id

-- The end of `planContextCompaction`, from the selected messages on.
unfoldable pub plan_selected :
    Stringify → ResolvedOptions → TokenCounter → List MessageRecord → Plan
unfolding summarize_messages
plan_selected json options counter selected =
    let source_tokens = sum_record_tokens selected counter in
    let s = summarize_messages json selected options.summary_target_tokens counter in
    if ltb (length selected) options.min_chunk_messages
    then stops below_target
    else if leb source_tokens s.tokens
    then stops no_smaller
    else compacts (record {
      range_start = id_of (first selected);
      range_end = id_of (last selected);
      summary_text = s.summary_text;
      source_token_count = source_tokens;
      summary_token_count = s.tokens;
      level = deterministic;
      created_by_model = none;
      meta = none;
    })

abbrev pub should_compact : ResolvedOptions → ℕ → ℕ → Bool
should_compact options candidate_tokens view_tokens =
    leb options.chunk_target_tokens candidate_tokens || ltb options.max_request_tokens view_tokens

-- Its middle, from the candidates on, with the tokens of the present view.
unfoldable pub plan_candidates :
    Stringify → ResolvedOptions → TokenCounter → ℕ → List MessageRecord → Plan
unfolding plan_selected select_chunk_messages
plan_candidates json options counter view_tokens [] = stops no_messages
plan_candidates json options counter view_tokens (c ∷ cs) =
    if not (should_compact options (sum_record_tokens (c ∷ cs) counter) view_tokens)
      || ltb (length (c ∷ cs)) options.min_chunk_messages
    then stops below_target
    else plan_selected json options counter
        (select_chunk_messages (c ∷ cs) options.chunk_target_tokens counter)

unfoldable pub plan_compaction : Stringify → ContextState → ResolvedOptions → TokenCounter → Plan
unfolding plan_candidates compaction_candidates assemble_window
plan_compaction json state options counter =
    if not options.enabled
    then stops disabled
    else plan_candidates json options counter
        (assemble_window state options counter).stats.total_tokens
        (compaction_candidates (sorted_messages state.messages) state.chunks options)

pub record Compaction : Type 0 where
  pub compacted : Bool
  pub chunks : List ChunkRecord
  pub reason : Option Reason

-- The passes of `compactSessionContext`: `append` writes a chunk, and may change a state. The chunks so
-- far are those of `state`, and `added` are those of this call.
unfoldable pub compact_passes :
    {S : Type 0}
    → Stringify
    → ResolvedOptions
    → TokenCounter
    → (ChunkInput → S → ChunkRecord × S)
    → ℕ
    → ContextState
    → List ChunkRecord
    → S
    → Compaction × S
unfolding plan_compaction
compact_passes json options counter append zero state added s =
    (record { compacted = ltb 0 (length added); chunks = added; reason = none }, s)
compact_passes json options counter append (suc passes) state added s =
    elim (plan_compaction json state options counter) [
      | stops why ↦
          (record { compacted = ltb 0 (length added); chunks = added; reason = some why }, s)
      | compacts input ↦
          let (chunk, s') = append input s in
          compact_passes json options counter append passes
            (record state { chunks = state.chunks ++ chunk ∷ [] }) (added ++ chunk ∷ []) s'
    ]

-- `compactSessionContext`: the bound on the passes is not checked to be positive.
unfoldable pub compact_context :
    {S : Type 0}
    → Stringify
    → WindowOptions
    → TokenCounter
    → (ChunkInput → S → ChunkRecord × S)
    → ContextState
    → S
    → Compaction × S
unfolding compact_passes resolve_options
compact_context json options counter append state s =
    compact_passes json (resolve_options options) counter append
      (or_else options.max_compaction_passes 16) state [] s
