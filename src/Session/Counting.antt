-- ===== src/Session/Counting.antt =====
-- The counters of a session (packages/session/src/session.ts) against its file.
use snapdragon.Prelude.{
  append_nil, ℕ, ◌+◌, ◌≡◌, refl, sym, ap, ◌∙◌, List, [], ◌∷◌, ◌++◌, length, length-append, arith,
}
use snapdragon.Prelude.Json.{Fields}
use snapdragon.Session.Records.{
  Message, SessionRecord, opened, messaged, noted, chunked, ChunkInput,
}
use snapdragon.Session.Packing.{max}
use snapdragon.Session.Files.{
  message_records, context_chunks, next_store_from, next_store_id, next_chunk_from, next_chunk_id,
  Session, append_record, append_message, AppendOptions, append_context_chunk, append_meta,
  read_records,
}

-- The counters are those that a reading of the file computes.
abbrev pub IsCounted : Session → Type 0
IsCounted s =
    (s.next_store_id ≡ next_store_id s.file)
    × (s.next_chunk_id ≡ next_chunk_id s.file)
    × (s.message_count ≡ length (message_records s.file))

-- Reading the records of a session with the counters of its file changes nothing.
pub read_records-same : (s : Session) → IsCounted s → read_records s ≡ (s.file, s)
unfolding read_records
read_records-same s (e, f, g) = cc

-- The counters of a longer file.
next_store_from-append :
    (n : ℕ) (file extra : List SessionRecord)
    → next_store_from n (file ++ extra) ≡ next_store_from (next_store_from n file) extra
next_store_from-append n [] extra = refl
next_store_from-append n (messaged q ∷ file) extra =
    next_store_from-append (max n (q.store_id + 1)) file extra
next_store_from-append n (chunked c ∷ file) extra = next_store_from-append n file extra
next_store_from-append n (opened o ∷ file) extra = next_store_from-append n file extra
next_store_from-append n (noted m ∷ file) extra = next_store_from-append n file extra

next_chunk_from-append :
    (n : ℕ) (file extra : List SessionRecord)
    → next_chunk_from n (file ++ extra) ≡ next_chunk_from (next_chunk_from n file) extra
next_chunk_from-append n [] extra = refl
next_chunk_from-append n (messaged q ∷ file) extra = next_chunk_from-append n file extra
next_chunk_from-append n (chunked c ∷ file) extra =
    next_chunk_from-append (max n (c.chunk_id + 1)) file extra
next_chunk_from-append n (opened o ∷ file) extra = next_chunk_from-append n file extra
next_chunk_from-append n (noted m ∷ file) extra = next_chunk_from-append n file extra

pub message_records-append :
    (file extra : List SessionRecord)
    → message_records (file ++ extra) ≡ message_records file ++ message_records extra
unfolding message_records
message_records-append [] extra = refl
message_records-append (messaged r ∷ file) extra =
    ap (λ rs. r ∷ rs) (message_records-append file extra)
message_records-append (chunked c ∷ file) extra = message_records-append file extra
message_records-append (opened o ∷ file) extra = message_records-append file extra
message_records-append (noted m ∷ file) extra = message_records-append file extra

pub context_chunks-append :
    (file extra : List SessionRecord)
    → context_chunks (file ++ extra) ≡ context_chunks file ++ context_chunks extra
unfolding context_chunks
context_chunks-append [] extra = refl
context_chunks-append (chunked c ∷ file) extra =
    ap (λ cs. c ∷ cs) (context_chunks-append file extra)
context_chunks-append (messaged r ∷ file) extra = context_chunks-append file extra
context_chunks-append (opened o ∷ file) extra = context_chunks-append file extra
context_chunks-append (noted m ∷ file) extra = context_chunks-append file extra

pub message_records-same :
    (file extra : List SessionRecord)
    → message_records extra ≡ []
    → message_records (file ++ extra) ≡ message_records file
message_records-same file extra e =
    message_records-append file extra
    ∙ (ap (λ rs. message_records file ++ rs) e ∙ append_nil (message_records file))

pub context_chunks-same :
    (file extra : List SessionRecord)
    → context_chunks extra ≡ []
    → context_chunks (file ++ extra) ≡ context_chunks file
context_chunks-same file extra e =
    context_chunks-append file extra
    ∙ (ap (λ cs. context_chunks file ++ cs) e ∙ append_nil (context_chunks file))

count-append :
    (file extra : List SessionRecord)
    → length (message_records (file ++ extra))
      ≡ length (message_records file) + length (message_records extra)
count-append file extra =
    rw (message_records-append file extra)
      (length-append (message_records file) (message_records extra))

-- Each operation keeps the counters those of the file.
pub append_message-IsCounted :
    (now : ℕ) (message : Message) (options : AppendOptions) (s : Session)
    → IsCounted s
    → IsCounted (append_message now message options s).1
unfolding append_message append_record next_store_id next_chunk_id message_records
append_message-IsCounted now message options s (e, f, g) = (
  sym (next_store_from-append 1 s.file _ ∙ ground (arith, e)),
  f ∙ sym (next_chunk_from-append 1 s.file _),
  omega (arith, g, count-append s.file (messaged _ ∷ [])),
)

pub append_context_chunk-IsCounted :
    (now : ℕ) (input : ChunkInput) (s : Session)
    → IsCounted s
    → IsCounted (append_context_chunk now input s).1
unfolding append_context_chunk append_record next_store_id next_chunk_id message_records
append_context_chunk-IsCounted now input s (e, f, g) = (
  e ∙ sym (next_store_from-append 1 s.file _),
  sym (next_chunk_from-append 1 s.file _ ∙ ground (arith, f)),
  omega (arith, g, count-append s.file (chunked _ ∷ [])),
)

pub append_meta-IsCounted :
    (now : ℕ) (meta : Fields) (s : Session) → IsCounted s → IsCounted (append_meta now meta s)
unfolding append_meta append_record next_store_id next_chunk_id message_records
append_meta-IsCounted now meta s (e, f, g) = (
  e ∙ sym (next_store_from-append 1 s.file _),
  f ∙ sym (next_chunk_from-append 1 s.file _),
  omega (arith, g, count-append s.file (noted _ ∷ [])),
)
