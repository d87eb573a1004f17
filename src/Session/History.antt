-- ===== src/Session/History.antt =====
-- What a session can become (packages/session/src/session.ts): the steps that write, and the readings
-- that compute the counters again.
use snapdragon.Prelude.{
  ◌++◌, ℕ, ◌<◌, ◌≡◌, refl, String, true, Option, none, List, [], ◌∷◌, All, All-append, All-imp,
  filter, ltb, arith,
}
use snapdragon.Prelude.Json.{Fields}
use snapdragon.Prelude.Increasing.{
  IsIncreasing, IsIncreasing-append, IsIncreasing-filter, sort-same, filter-filter,
}
use snapdragon.Session.Records.{
  Message, ChunkInput, SessionRecord, opened, messaged, noted, chunked, ResolvedOptions,
}
use snapdragon.Session.Tokens.{TokenCounter}
use snapdragon.Session.Packing.{latest_chunk_end}
use snapdragon.Session.Watermark.{latest_chunk_end-sort}
use snapdragon.Session.Window.{assemble_window, sorted_messages, sorted_chunks}
use snapdragon.Prelude.Units.{Units, units}
use snapdragon.Session.Lines.{
  line_includes, line_includes-append, is_message_line, update_stats, read_record_stats,
}
use snapdragon.Session.Files.{
  Session, opens, new_session, message_records, context_chunks, append_record, append_message,
  AppendOptions, append_context_chunk, append_meta, read_records, read_messages_after,
  read_compacted_state, create_session_file, first_record, messages,
}
use snapdragon.Session.Counting.{
  IsCounted, append_message-IsCounted, append_context_chunk-IsCounted, append_meta-IsCounted,
  read_records-same, message_records-append, context_chunks-append, message_records-same,
  context_chunks-same,
}

-- One operation of a session, or several.
pub data Reaches : Session → Session → Type 0 where
  stays : (s : Session) → Reaches s s
  says :
      (now : ℕ) (message : Message) (options : AppendOptions) (s t : Session)
      → Reaches s t
      → Reaches s (append_message now message options t).1
  sums_up :
      (now : ℕ) (input : ChunkInput) (s t : Session)
      → Reaches s t
      → Reaches s (append_context_chunk now input t).1
  notes :
      (now : ℕ) (meta : Fields) (s t : Session) → Reaches s t → Reaches s (append_meta now meta t)
  reads : (s t : Session) → Reaches s t → Reaches s (read_records t).1

-- The counters are the file's, and the ids of messages and of chunks rise strictly below them.
abbrev pub IsNumbered : Session → Type 0
IsNumbered s =
    IsCounted s
    × IsIncreasing (λ r. r.store_id) (message_records s.file)
    × All (λ r. r.store_id < s.next_store_id) (message_records s.file)
    × IsIncreasing (λ c. c.chunk_id) (context_chunks s.file)
    × All (λ c. c.chunk_id < s.next_chunk_id) (context_chunks s.file)

append_message-IsNumbered :
    (now : ℕ) (message : Message) (options : AppendOptions) (s : Session)
    → IsNumbered s
    → IsNumbered (append_message now message options s).1
unfolding append_message append_record message_records context_chunks
append_message-IsNumbered now message options s (e, h, b, k, c) = (
  append_message-IsCounted now message options s e,
  rw (message_records-append s.file _) (IsIncreasing-append _ _ _ h b),
  rw (message_records-append s.file _)
      (All-append _ _ _ (All-imp _ _ (λ r p. omega (arith, p)) _ b) (omega arith, tt)),
  rw (context_chunks-same s.file (messaged _ ∷ []) refl) k,
  rw (context_chunks-same s.file (messaged _ ∷ []) refl) c,
)

append_context_chunk-IsNumbered :
    (now : ℕ) (input : ChunkInput) (s : Session)
    → IsNumbered s
    → IsNumbered (append_context_chunk now input s).1
unfolding append_context_chunk append_record message_records context_chunks
append_context_chunk-IsNumbered now input s (e, h, b, k, c) = (
  append_context_chunk-IsCounted now input s e,
  rw (message_records-same s.file (chunked _ ∷ []) refl) h,
  rw (message_records-same s.file (chunked _ ∷ []) refl) b,
  rw (context_chunks-append s.file _) (IsIncreasing-append _ _ _ k c),
  rw (context_chunks-append s.file _)
      (All-append _ _ _ (All-imp _ _ (λ q p. omega (arith, p)) _ c) (omega arith, tt)),
)

append_meta-IsNumbered :
    (now : ℕ) (meta : Fields) (s : Session) → IsNumbered s → IsNumbered (append_meta now meta s)
unfolding append_meta append_record message_records context_chunks
append_meta-IsNumbered now meta s (e, h, b, k, c) = (
  append_meta-IsCounted now meta s e,
  rw (message_records-same s.file (noted _ ∷ []) refl) h,
  rw (message_records-same s.file (noted _ ∷ []) refl) b,
  rw (context_chunks-same s.file (noted _ ∷ []) refl) k,
  rw (context_chunks-same s.file (noted _ ∷ []) refl) c,
)

-- Every session that is reached from one with its file's counters and rising ids is one again.
pub Reaches-IsNumbered : (s t : Session) → Reaches s t → IsNumbered s → IsNumbered t
Reaches-IsNumbered _ _ (stays s) h = h
Reaches-IsNumbered _ _ (says now message options s u r) h =
    append_message-IsNumbered now message options u (Reaches-IsNumbered s u r h)
Reaches-IsNumbered _ _ (sums_up now input s u r) h =
    append_context_chunk-IsNumbered now input u (Reaches-IsNumbered s u r h)
Reaches-IsNumbered _ _ (notes now meta s u r) h =
    append_meta-IsNumbered now meta u (Reaches-IsNumbered s u r h)
Reaches-IsNumbered _ _ (reads s u r) h =
    let k = Reaches-IsNumbered s u r h in rw (read_records-same u k.0) k

-- A created file whose meta data hold `"type":"message"` in their text, wherever that is, is counted as one
-- with a message, though it has none: `messages` gives none, and leaves the count at none.
pub create_session_file-miscounts :
    (line : SessionRecord → Units) (now : ℕ) (id : String) (meta : Option Fields)
    (before after : Units)
    → line (first_record now id meta) ≡ before ++ (units "\"type\":\"message\"" ++ after)
    → (s : Session) × (create_session_file line now id meta none ≡ opens s)
      × (s.message_count ≡ 1)
      × ((messages s).0 ≡ [])
      × ((messages s).1.message_count ≡ 0)
unfolding create_session_file new_session read_record_stats update_stats is_message_line messages
    read_records message_records
create_session_file-miscounts line now id meta before after e =
    let found : line_includes (line (first_record now id meta)) (units "\"type\":\"message\"")
        ≡ true =
      rw e (line_includes-append before (units "\"type\":\"message\"") after) in
    (new_session line id (first_record now id meta ∷ []), refl, rw found refl, refl, refl)

pub read_messages_after-filter :
    (file : List SessionRecord) (watermark : ℕ)
    → read_messages_after file watermark
      ≡ filter (λ r. ltb watermark r.store_id) (message_records file)
unfolding read_messages_after message_records
read_messages_after-filter [] watermark = refl
read_messages_after-filter (messaged r ∷ file) watermark =
    rw (read_messages_after-filter file watermark) (ground arith)
read_messages_after-filter (chunked c ∷ file) watermark = read_messages_after-filter file watermark
read_messages_after-filter (opened o ∷ file) watermark = read_messages_after-filter file watermark
read_messages_after-filter (noted m ∷ file) watermark = read_messages_after-filter file watermark

-- With rising ids, a request assembled from the short reading of the file, which leaves out the
-- messages at or below the watermark, is that assembled from all of its records.
pub read_compacted_state-same :
    (file : List SessionRecord) (options : ResolvedOptions) (counter : TokenCounter)
    → options.enabled ≡ true
    → IsIncreasing (λ r. r.store_id) (message_records file)
    → (assemble_window (read_compacted_state file) options counter).messages
      ≡ (assemble_window
          (record { messages = message_records file; chunks = context_chunks file })
          options
          counter).messages
unfolding assemble_window read_compacted_state sorted_messages sorted_chunks
read_compacted_state-same file options counter on h =
    let watermark = latest_chunk_end (context_chunks file) in
    let all : sorted_messages (message_records file) ≡ message_records file = sort-same _ _ h in
    let short : sorted_messages (filter (λ r. ltb watermark r.store_id) (message_records file))
        ≡ filter (λ r. ltb watermark r.store_id) (message_records file) =
      sort-same _ _ (IsIncreasing-filter _ _ _ h) in
    rw
      (
        on,
        latest_chunk_end-sort (context_chunks file),
        all,
        read_messages_after-filter file watermark,
        short,
        filter-filter (λ r. ltb watermark r.store_id) (message_records file),
      )
      refl
