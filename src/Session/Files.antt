-- ===== src/Session/Files.antt =====
-- packages/session/src/session.ts, with the readers in records.ts, session-record-views.ts,
-- context-records.ts, recent-records.ts and metadata.ts. The file is the list of the records that
-- `appendRecord` has written.
use snapdragon.Prelude.{
  ℕ, ◌+◌, ◌-◌, String, Option, none, some, List, [], ◌∷◌, ◌++◌, leb, eqb, if◌then◌else◌, or_else,
  length, map, drop, ◌==◌,
}
use snapdragon.Prelude.Json.{Json, Fields, end, field}
use snapdragon.Prelude.Texts.{is_empty}
use snapdragon.Session.Records.{
  Message, MessageRecord, ChunkInput, ChunkRecord, SessionRecord, opened, messaged, noted, chunked,
  WindowOptions, resolve_options,
}
use snapdragon.Session.Tokens.{Stringify, heuristic_counter, record_to_message}
use snapdragon.Session.Packing.{max, latest_chunk_end}
use snapdragon.Prelude.Units.{Units}
use snapdragon.Session.Lines.{read_record_stats}
use snapdragon.Session.Window.{ContextState, assemble_window, Compaction, compact_context}

unfoldable pub message_records : List SessionRecord → List MessageRecord
message_records [] = []
message_records (messaged r ∷ file) = r ∷ message_records file
message_records (opened o ∷ file) = message_records file
message_records (noted m ∷ file) = message_records file
message_records (chunked c ∷ file) = message_records file

unfoldable pub context_chunks : List SessionRecord → List ChunkRecord
context_chunks [] = []
context_chunks (chunked c ∷ file) = c ∷ context_chunks file
context_chunks (messaged r ∷ file) = context_chunks file
context_chunks (opened o ∷ file) = context_chunks file
context_chunks (noted m ∷ file) = context_chunks file

-- The loops of `nextStoreId` and `nextChunkId`
abbrev pub next_store_from : ℕ → List SessionRecord → ℕ
next_store_from next [] = next
next_store_from next (messaged r ∷ file) = next_store_from (max next (r.store_id + 1)) file
next_store_from next (opened o ∷ file) = next_store_from next file
next_store_from next (noted m ∷ file) = next_store_from next file
next_store_from next (chunked c ∷ file) = next_store_from next file

unfoldable pub next_store_id : List SessionRecord → ℕ
next_store_id file = next_store_from 1 file

abbrev pub next_chunk_from : ℕ → List SessionRecord → ℕ
next_chunk_from next [] = next
next_chunk_from next (chunked c ∷ file) = next_chunk_from (max next (c.chunk_id + 1)) file
next_chunk_from next (opened o ∷ file) = next_chunk_from next file
next_chunk_from next (noted m ∷ file) = next_chunk_from next file
next_chunk_from next (messaged r ∷ file) = next_chunk_from next file

unfoldable pub next_chunk_id : List SessionRecord → ℕ
next_chunk_id file = next_chunk_from 1 file

-- `readMessagesAfter`, which skips the messages at or below the watermark
unfoldable pub read_messages_after : List SessionRecord → ℕ → List MessageRecord
read_messages_after [] watermark = []
read_messages_after (messaged r ∷ file) watermark =
    let rest = read_messages_after file watermark in
    if leb r.store_id watermark then rest else r ∷ rest
read_messages_after (opened o ∷ file) watermark = read_messages_after file watermark
read_messages_after (noted m ∷ file) watermark = read_messages_after file watermark
read_messages_after (chunked c ∷ file) watermark = read_messages_after file watermark

unfoldable pub read_compacted_state : List SessionRecord → ContextState
unfolding context_chunks read_messages_after latest_chunk_end
read_compacted_state file = record {
  chunks = context_chunks file;
  messages = read_messages_after file (latest_chunk_end (context_chunks file));
}

pub record RecentMessages : Type 0 where
  pub records : List MessageRecord
  pub total_messages : ℕ

-- `collectRecentMessage`: the oldest of the records kept goes out when there are `bounded` of them.
unfoldable pub collect_recent : RecentMessages → ℕ → SessionRecord → RecentMessages
collect_recent s bounded (messaged r) =
    let kept = if eqb (length s.records) bounded then drop 1 s.records else s.records in
    record {
      records = if eqb bounded 0 then s.records else kept ++ r ∷ [];
      total_messages = s.total_messages + 1;
    }
collect_recent s bounded (opened o) = s
collect_recent s bounded (noted m) = s
collect_recent s bounded (chunked c) = s

abbrev pub recent_from : RecentMessages → ℕ → List SessionRecord → RecentMessages
recent_from s bounded [] = s
recent_from s bounded (r ∷ file) = recent_from (collect_recent s bounded r) bounded file

unfoldable pub read_recent : List SessionRecord → ℕ → RecentMessages
unfolding collect_recent
read_recent file bounded = recent_from (record { records = []; total_messages = 0 }) bounded file

-- `Object.assign(target, source)`: a field that is there keeps its place.
unfoldable pub set_field : String → Json → Fields → Fields
set_field k v end = field k v end
set_field k v (field name w rest) =
    let later = set_field k v rest in if name == k then field name v rest else field name w later

unfoldable pub assign : Fields → Fields → Fields
unfolding set_field
assign target end = target
assign target (field k v rest) = assign (set_field k v target) rest

abbrev pub metadata_from : Fields → List SessionRecord → Fields
metadata_from acc [] = acc
metadata_from acc (opened o ∷ file) =
    metadata_from (elim o.meta [ none ↦ acc | some meta ↦ assign acc meta ]) file
metadata_from acc (noted m ∷ file) = metadata_from (assign acc m.meta) file
metadata_from acc (messaged r ∷ file) = metadata_from acc file
metadata_from acc (chunked c ∷ file) = metadata_from acc file

unfoldable pub session_metadata : List SessionRecord → Fields
unfolding assign
session_metadata file = metadata_from end file

-- `JsonlSession`
pub record Session : Type 0 where
  pub session_id : String
  pub file : List SessionRecord
  pub next_store_id : ℕ
  pub next_chunk_id : ℕ
  pub message_count : ℕ

-- Its constructor; `line` is `JSON.stringify`, the line that was written for a record.
unfoldable pub new_session : (SessionRecord → Units) → String → List SessionRecord → Session
unfolding read_record_stats
new_session line session_id file =
    let stats = read_record_stats (map line file) in
    record {
      session_id = session_id;
      file = file;
      next_store_id = stats.next_store_id;
      next_chunk_id = stats.next_chunk_id;
      message_count = stats.message_count;
    }

unfoldable pub append_record : SessionRecord → Session → Session
append_record (messaged r) s = record s {
  file = s.file ++ messaged r ∷ [];
  message_count = s.message_count + 1;
}
append_record (opened o) s = record s { file = s.file ++ opened o ∷ [] }
append_record (noted m) s = record s { file = s.file ++ noted m ∷ [] }
append_record (chunked c) s = record s { file = s.file ++ chunked c ∷ [] }

pub record AppendOptions : Type 0 where
  pub created_at : Option ℕ
  pub meta : Option Fields

-- A call id that is empty is not written.
abbrev pub if_given : Option String → Option String
if_given none = none
if_given (some id) = if is_empty id then none else some id

unfoldable pub append_message : ℕ → Message → AppendOptions → Session → MessageRecord × Session
unfolding append_record
append_message now message options s =
    let r : MessageRecord = record {
      store_id = s.next_store_id;
      role = message.role;
      content = message.content;
      tool_call_id = if_given message.tool_call_id;
      tool_calls = message.tool_calls;
      thinking = message.thinking;
      created_at = or_else options.created_at now;
      meta = options.meta;
    } in
    (r, append_record (messaged r) (record s { next_store_id = s.next_store_id + 1 }))

unfoldable pub append_context_chunk : ℕ → ChunkInput → Session → ChunkRecord × Session
unfolding append_record
append_context_chunk now input s =
    let c : ChunkRecord = record {
      chunk_id = s.next_chunk_id;
      range_start = input.range_start;
      range_end = input.range_end;
      summary_text = input.summary_text;
      source_token_count = input.source_token_count;
      summary_token_count = input.summary_token_count;
      created_at = now;
      level = input.level;
      created_by_model = input.created_by_model;
      meta = input.meta;
    } in
    (c, append_record (chunked c) (record s { next_chunk_id = s.next_chunk_id + 1 }))

unfoldable pub append_meta : ℕ → Fields → Session → Session
unfolding append_record
append_meta now meta s = append_record (noted (record { updated_at = now; meta = meta })) s

-- `#readRecords`: every counter is computed again.
unfoldable pub read_records : Session → List SessionRecord × Session
unfolding next_store_id next_chunk_id message_records
read_records s = (
  s.file,
  record s {
    next_store_id = next_store_id s.file;
    next_chunk_id = next_chunk_id s.file;
    message_count = length (message_records s.file);
  },
)

unfoldable pub metadata : Session → Fields
unfolding session_metadata
metadata s = session_metadata s.file

unfoldable pub messages : Session → List Message × Session
unfolding read_records message_records
messages s = let (file, s') = read_records s in (map record_to_message (message_records file), s')

unfoldable pub recent_messages : ℕ → Session → List Message × ℕ
unfolding read_recent
recent_messages limit s =
    let recent = read_recent s.file limit in
    (map record_to_message recent.records, recent.total_messages - length recent.records)

unfoldable pub read_context_state : WindowOptions → Session → ContextState × Session
unfolding read_compacted_state read_records message_records context_chunks resolve_options
read_context_state options s =
    let (file, s') = read_records s in
    if (resolve_options options).enabled
    then (read_compacted_state s.file, s)
    else (record { messages = message_records file; chunks = context_chunks file }, s')

unfoldable pub assemble_context : Stringify → WindowOptions → Session → List Message × Session
unfolding read_context_state assemble_window resolve_options
assemble_context json options s =
    let (state, s') = read_context_state options s in
    ((assemble_window state (resolve_options options) (heuristic_counter json)).messages, s')

-- `compactContext`; `now` is the clock when a chunk is appended.
unfoldable pub compact_session :
    Stringify → (Session → ℕ) → WindowOptions → Session → Compaction × Session
unfolding read_context_state compact_context append_context_chunk
compact_session json now options s =
    let (state, s') = read_context_state options s in
    compact_context json options (heuristic_counter json)
      (λ input t. append_context_chunk (now t) input t) state s'

-- `assemble`, with the system message it is given
unfoldable pub assemble : Option Message → Session → List Message × Session
unfolding messages
assemble system s =
    let (all, s') = messages s in (elim system [ none ↦ all | some message ↦ message ∷ all ], s')

pub data Opening : Type 0 where
  opens : Session → Opening
  already_exists does_not_exist : Opening

-- The record that `createSessionFile` writes.
abbrev pub first_record : ℕ → String → Option Fields → SessionRecord
first_record now session_id meta =
    opened (record { session_id = session_id; created_at = now; schema_version = 1; meta = meta })

-- `createSessionFile` and `openSessionFile`, of the file that is at the path, if there is one
unfoldable pub create_session_file :
    (SessionRecord → Units) → ℕ → String → Option Fields → Option (List SessionRecord) → Opening
unfolding new_session
create_session_file line now session_id meta (some file) = already_exists
create_session_file line now session_id meta none =
    opens (new_session line session_id (first_record now session_id meta ∷ []))

unfoldable pub open_session_file :
    (SessionRecord → Units) → String → Option (List SessionRecord) → Opening
unfolding new_session
open_session_file line session_id none = does_not_exist
open_session_file line session_id (some file) = opens (new_session line session_id file)
