-- ===== src/Session/Packing.antt =====
-- packages/session/src/context-packing.ts: which messages a compaction takes.
use snapdragon.Prelude.{
  ℕ, suc, ◌+◌, ◌-◌, String, Bool, true, false, not, ◌&&◌, ◌||◌, Option, none, some, List, [], ◌∷◌,
  ◌++◌, ltb, leb, eqb, if◌then◌else◌, filter, length, map, take, drop, last, find_index, take_while,
  get_elem?, ◌==◌,
}
use mathlib.Core.List.{reverse}
use snapdragon.Prelude.Texts.{is_empty}
use snapdragon.Session.Records.{
  Role, system, user, assistant, tool, MessageRecord, ChunkRecord, ResolvedOptions,
}
use snapdragon.Session.Tokens.{TokenCounter, estimate_record_tokens}

abbrev pub max : ℕ → ℕ → ℕ
max a b = if ltb a b then b else a

-- `latestChunkEnd`
abbrev pub latest_chunk_end_from : ℕ → List ChunkRecord → ℕ
latest_chunk_end_from acc [] = acc
latest_chunk_end_from acc (chunk ∷ chunks) = latest_chunk_end_from (max acc chunk.range_end) chunks

unfoldable pub latest_chunk_end : List ChunkRecord → ℕ
latest_chunk_end chunks = latest_chunk_end_from 0 chunks

-- `tailStartStoreId`; `none` is infinity.
unfoldable pub tail_start_store_id : List MessageRecord → ℕ → Option ℕ
tail_start_store_id messages fresh_tail_count =
    if leb (length messages) fresh_tail_count
    then none
    else elim (get_elem? messages (length messages - fresh_tail_count)) [
      | none ↦ none
      | some r ↦ some r.store_id
    ]

abbrev pub before_tail : ℕ → Option ℕ → Bool
before_tail id none = true
before_tail id (some start) = ltb id start

abbrev pub is_candidate : ℕ → Option ℕ → MessageRecord → Bool
is_candidate watermark start r = ltb watermark r.store_id && before_tail r.store_id start

unfoldable pub compaction_candidates :
    List MessageRecord → List ChunkRecord → ResolvedOptions → List MessageRecord
unfolding latest_chunk_end tail_start_store_id
compaction_candidates messages chunks options =
    filter
      (is_candidate (latest_chunk_end chunks)
        (tail_start_store_id messages options.fresh_tail_count))
      messages

abbrev pub sum_record_tokens : List MessageRecord → TokenCounter → ℕ
sum_record_tokens [] counter = 0
sum_record_tokens (r ∷ records) counter =
    estimate_record_tokens r counter + sum_record_tokens records counter

-- The loop of `packUntilTarget`: whether something is selected, and what it costs.
unfoldable pub pack_from : ℕ → TokenCounter → Bool → ℕ → List MessageRecord → List MessageRecord
pack_from target counter started used [] = []
pack_from target counter started used (candidate ∷ candidates) =
    let cost = estimate_record_tokens candidate counter in
    let rest = pack_from target counter true (used + cost) candidates in
    if started && ltb target (used + cost) then [] else candidate ∷ rest

unfoldable pub pack_until_target : List MessageRecord → ℕ → TokenCounter → List MessageRecord
unfolding pack_from
pack_until_target candidates target counter = pack_from target counter false 0 candidates

abbrev pub has_tool_calls : MessageRecord → Bool
has_tool_calls r = elim r.tool_calls [ none ↦ false | some calls ↦ ltb 0 (length calls) ]

abbrev pub is_assistant : Role → Bool
is_assistant assistant = true
is_assistant system = false
is_assistant user = false
is_assistant tool = false

abbrev pub is_tool : Role → Bool
is_tool tool = true
is_tool system = false
is_tool user = false
is_tool assistant = false

abbrev pub is_assistant_with_tool_calls : MessageRecord → Bool
is_assistant_with_tool_calls r = is_assistant r.role && has_tool_calls r

abbrev pub is_tool_result : MessageRecord → Bool
is_tool_result r = is_tool r.role || elim r.tool_call_id [ none ↦ false | some _ ↦ true ]

-- The loop of `trailingAssistantWithToolsIndex`, over the records from the last to the first.
abbrev pub trailing_from : List MessageRecord → Option ℕ
trailing_from [] = none
trailing_from (r ∷ earlier) =
    let rest = trailing_from earlier in
    if is_assistant_with_tool_calls r
    then some (length earlier)
    else if is_tool_result r
    then rest
    else none

unfoldable pub trailing_assistant_index : List MessageRecord → Option ℕ
trailing_assistant_index selected = trailing_from (reverse selected)

-- `appendFollowingToolResults`
unfoldable pub append_following_tool_results :
    List MessageRecord → List MessageRecord → List MessageRecord
append_following_tool_results selected candidates = elim (last selected) [
  | none ↦ selected
  | some r ↦ elim (find_index (λ c. eqb c.store_id r.store_id) candidates) [
    | none ↦ selected
    | some i ↦ selected ++ take_while is_tool_result (drop (suc i) candidates)
  ]
]

-- The ids of the calls of the record, if it is there.
abbrev pub collect_tool_call_ids : Option MessageRecord → List String
collect_tool_call_ids none = []
collect_tool_call_ids (some r) = elim r.tool_calls [
  | none ↦ []
  | some calls ↦ map (λ call. call.id) calls
]

-- `expected.delete(id)` for each result with an id that is not empty. Only whether any is left over is
-- asked, so that an id may stand twice in the list.
abbrev pub unanswered : List String → List MessageRecord → List String
unanswered ids [] = ids
unanswered ids (r ∷ records) =
    unanswered
      (elim r.tool_call_id [
        | none ↦ ids
        | some id ↦ if is_empty id then ids else filter (λ x. not (x == id)) ids
      ])
      records

abbrev pub is_none_left : List String → Bool
is_none_left [] = true
is_none_left (id ∷ ids) = false

unfoldable pub has_tool_results_for : List MessageRecord → ℕ → Bool
has_tool_results_for selected i =
    is_none_left (unanswered (collect_tool_call_ids (get_elem? selected i)) (drop (suc i) selected))

unfoldable pub extend_through_tool_results :
    List MessageRecord → List MessageRecord → List MessageRecord
unfolding trailing_assistant_index append_following_tool_results has_tool_results_for
extend_through_tool_results selected candidates = elim (trailing_assistant_index selected) [
  | none ↦ selected
  | some i ↦
      let extended = append_following_tool_results selected candidates in
      if has_tool_results_for extended i then extended else take i extended
]

unfoldable pub select_chunk_messages : List MessageRecord → ℕ → TokenCounter → List MessageRecord
unfolding pack_until_target extend_through_tool_results
select_chunk_messages candidates target counter =
    extend_through_tool_results (pack_until_target candidates target counter) candidates
