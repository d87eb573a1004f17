-- ===== src/Session/Bounds.antt =====
-- How long a summary is (packages/session/src/context-summary.ts), and where the compaction does not
-- keep what its comments and options say (context-packing.ts).
use snapdragon.Prelude.{
  map, ℕ, ◌+◌, ◌-◌, ◌*◌, ◌/◌, ◌≤◌, ◌<◌, ◌≡◌, refl, ap, ◌∙◌, inl, inr, true, false, Bool-cases, none,
  some, List, [], ◌∷◌, ◌++◌, String, if◌then◌else◌, take, length, length-append, length-take,
  filter, leb, ltb, eqb, arith,
}
use snapdragon.Prelude.Units.{join, Units, units, trim_end, length-trim_end-le}
use snapdragon.Prelude.Increasing.{IsIncreasing, IsIncreasing-filter, sort-same, filter-filter}
use snapdragon.Session.Records.{MessageRecord, SessionRecord, ResolvedOptions, assistant, text}
use snapdragon.Session.Tokens.{
  newline, Stringify, TokenCounter, heuristic_counter, count_string, estimate_record_tokens,
}
use snapdragon.Session.Summary.{
  truncate_to_chars, target_chars, summarize_messages, summary_header, summarize_record,
}
use snapdragon.Session.Packing.{
  is_candidate, max, latest_chunk_end, tail_start_store_id, compaction_candidates, pack_from,
  pack_until_target, select_chunk_messages, has_tool_results_for, extend_through_tool_results,
  append_following_tool_results, trailing_assistant_index,
}
use snapdragon.Session.Window.{sorted_messages}
use snapdragon.Session.Files.{
  message_records, context_chunks, read_compacted_state, read_messages_after,
}
use snapdragon.Session.History.{read_messages_after-filter}

-- A text that is cut is not longer than asked, its mark included, from 15 units on.
pub length-truncate_to_chars :
    (value : Units) (max_chars : ℕ)
    → 15 ≤ max_chars
    → length (truncate_to_chars value max_chars) ≤ max_chars
unfolding truncate_to_chars units
length-truncate_to_chars value max_chars h = elim (Bool-cases (leb (length value) max_chars)) [
  | inl e ↦ rw e (ground arith)
  | inr e ↦
      let cut = take (max_chars - 15) value in
      let total = length-append (trim_end cut) (units " [truncated]") in
      rw e (omega (arith, h, total, length-trim_end-le cut, length-take (max_chars - 15) value))
]

count_string-le : (s : Units) (n : ℕ) → length s ≤ n → count_string s ≤ (2 * n + 6) / 7
unfolding count_string
count_string-le [] n h = omega arith
count_string-le (c ∷ s) n h = omega (arith, h)

truncate_to_chars-cost :
    (value : Units) (max_chars : ℕ)
    → 15 ≤ max_chars
    → count_string (truncate_to_chars value max_chars) ≤ (2 * max_chars + 6) / 7
truncate_to_chars-cost value max_chars h =
    count_string-le _ max_chars (length-truncate_to_chars value max_chars h)

target_chars-cost :
    (target_tokens : ℕ) → (2 * target_chars target_tokens + 6) / 7 ≤ max target_tokens 46
target_chars-cost target_tokens = ground arith

target_chars-least : (target_tokens : ℕ) → 15 ≤ target_chars target_tokens
target_chars-least target_tokens = ground arith

-- By the default counter a summary costs at most the tokens asked for, or 46 where fewer are asked for.
pub summarize_messages-le :
    (json : Stringify) (records : List MessageRecord) (target_tokens : ℕ)
    → (summarize_messages json records target_tokens (heuristic_counter json)).tokens
      ≤ max target_tokens 46
unfolding summarize_messages
summarize_messages-le json records target_tokens =
    let cost =
      truncate_to_chars-cost
        (summary_header (length records)
          ++ (newline ++ join newline (map (summarize_record json) records)))
        (target_chars target_tokens) (target_chars-least target_tokens) in
    omega (arith, cost, target_chars-cost target_tokens)

filter-shown :
    (watermark : ℕ) (messages : List MessageRecord)
    → filter (is_candidate watermark none) messages
      ≡ filter (λ r. ltb watermark r.store_id) messages
filter-shown watermark [] = refl
filter-shown watermark (r ∷ messages) = elim (Bool-cases (ltb watermark r.store_id)) [
  | inl e ↦ rw e (ap (λ rest. r ∷ rest) (filter-shown watermark messages))
  | inr e ↦ rw e (filter-shown watermark messages)
]

-- When no more messages are shown than the fresh tail has, the tail is not kept: all of them are
-- candidates.
pub compaction_candidates-all :
    (file : List SessionRecord) (options : ResolvedOptions)
    → IsIncreasing (λ r. r.store_id) (message_records file)
    → length (read_compacted_state file).messages ≤ options.fresh_tail_count
    → compaction_candidates
        (sorted_messages (read_compacted_state file).messages)
        (read_compacted_state file).chunks
        options
      ≡ (read_compacted_state file).messages
unfolding compaction_candidates read_compacted_state sorted_messages tail_start_store_id
compaction_candidates-all file options h few =
    let watermark = latest_chunk_end (context_chunks file) in
    let shown = filter (λ r. ltb watermark r.store_id) (message_records file) in
    let e : read_messages_after file watermark ≡ shown =
      read_messages_after-filter file watermark in
    let sorted : sorted_messages shown ≡ shown = sort-same _ _ (IsIncreasing-filter _ _ _ h) in
    let no_tail : leb (length shown) options.fresh_tail_count ≡ true =
      let few' : length shown ≤ options.fresh_tail_count = rw e at few in ground arith in
    rw (e, sorted, no_tail) (filter-shown watermark shown ∙ filter-filter _ (message_records file))

-- A message of the assistant with one tool call.
abbrev pub calling : ℕ → String → MessageRecord
calling id call = record {
  store_id = id;
  role = assistant;
  content = text [];
  tool_call_id = none;
  tool_calls = some (record { id = call; name = "read"; args_json = "{}" } ∷ []);
  thinking = none;
  created_at = 0;
  meta = none;
}

module _ (i j : ℕ) (first_call second_call : String) (h : i < j) where
  abbrev two_calls : List MessageRecord
  two_calls = calling i first_call ∷ calling j second_call ∷ []

  both_packed :
      (target : ℕ) (counter : TokenCounter)
      → estimate_record_tokens (calling i first_call) counter
          + estimate_record_tokens (calling j second_call) counter
        ≤ target
      → pack_until_target two_calls target counter ≡ two_calls
  unfolding pack_until_target pack_from
  both_packed target counter fits =
      let cost =
        estimate_record_tokens (calling i first_call) counter
        + estimate_record_tokens (calling j second_call) counter in
      let room : ltb target (
            0
            + estimate_record_tokens (calling i first_call) counter
            + estimate_record_tokens (calling j second_call) counter)
          ≡ false =
        ground (arith, fits) in
      rw room refl

  none_follow : append_following_tool_results two_calls two_calls ≡ two_calls
  unfolding append_following_tool_results
  none_follow =
      let miss : eqb i j ≡ false = ground (arith, h) in
      let hit : eqb j j ≡ true = ground arith in rw (append_following_tool_results, miss, hit) refl

  first_left : extend_through_tool_results two_calls two_calls ≡ calling i first_call ∷ []
  unfolding extend_through_tool_results trailing_assistant_index has_tool_results_for
  first_left =
      ap (λ extended. if has_tool_results_for extended 1 then extended else take 1 extended)
        none_follow

-- Of two calls without results one after the other, only the second is dropped: the selection ends with
-- a call that no result answers.
pub dangling_call_left :
    (i j : ℕ) (first_call second_call : String) (target : ℕ) (counter : TokenCounter)
    → i < j
    → estimate_record_tokens (calling i first_call) counter
        + estimate_record_tokens (calling j second_call) counter
      ≤ target
    → (select_chunk_messages (calling i first_call ∷ calling j second_call ∷ []) target counter
        ≡ calling i first_call ∷ [])
      × (has_tool_results_for (calling i first_call ∷ []) 0 ≡ false)
unfolding select_chunk_messages extend_through_tool_results trailing_assistant_index
    has_tool_results_for
dangling_call_left i j first_call second_call target counter h fits =
    let packed = both_packed i j first_call second_call h target counter fits in
    let cs = two_calls i j first_call second_call h in
    (
      ap (λ p. extend_through_tool_results p cs) packed ∙ first_left i j first_call second_call h,
      refl,
    )
