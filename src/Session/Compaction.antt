-- ===== src/Session/Compaction.antt =====
-- `compactContext` of a session: the passes on the file (packages/session/src/session.ts and
-- session-compaction.ts).
use snapdragon.Prelude.{
  ℕ, zero, suc, ◌<◌, ◌≡◌, refl, sym, ap, ◌∙◌, inl, inr, Bool-cases, Option, none, some, List, [],
  ◌∷◌, ◌++◌, All-imp, All-both, filter, filter-All, All-filter_keep, append_assoc, append_nil,
  length, In, arith, ltb, or_else,
}
use mathlib.Core.Path.{subst}
use snapdragon.Session.Records.{
  MessageRecord, ChunkInput, ChunkRecord, WindowOptions, ResolvedOptions, resolve_options,
  positive_integer, chunked,
}
use snapdragon.Session.Tokens.{Stringify, TokenCounter, heuristic_counter}
use snapdragon.Session.Packing.{latest_chunk_end}
use snapdragon.Session.Window.{ContextState, plan_compaction, compact_passes, compact_context}
use snapdragon.Session.Files.{
  Session, message_records, context_chunks, append_context_chunk, append_record, read_context_state,
  read_compacted_state, read_records, compact_session,
}
use snapdragon.Session.Counting.{message_records-same, context_chunks-append}
use snapdragon.Session.History.{Reaches, sums_up, stays, reads, read_messages_after-filter}
use snapdragon.Session.FreshTail.{fresh_tail}
use snapdragon.Session.Covering.{
  KeepsRange, Plan-cases, with_chunks, Passes, Passes-from, InRange-old, IsCovered,
  Passes-IsCovered, Passes-tail,
}

positive_integer-pos : (o : Option ℕ) → 0 < positive_integer o 4
unfolding positive_integer
positive_integer-pos none = omega arith
positive_integer-pos (some zero) = omega arith
positive_integer-pos (some (suc n)) = omega arith

min_chunk-pos : (options : WindowOptions) → 0 < (resolve_options options).min_chunk_messages
unfolding resolve_options
min_chunk-pos options = positive_integer-pos options.min_chunk_messages

-- The chunks of a compaction are planned one after the other.
compact_passes-Passes :
    {S : Type 0} (json : Stringify) (options : ResolvedOptions) (counter : TokenCounter)
    (append : ChunkInput → S → ChunkRecord × S) (passes : ℕ) (state : ContextState) (s : S)
    → KeepsRange append
    → 0 < options.min_chunk_messages
    → Passes state.messages options state.chunks
        (state.chunks ++ (compact_passes json options counter append passes state [] s).0.chunks)
compact_passes-Passes json options counter append passes state s keeps m =
    subst
      (λ cs. Passes state.messages options cs (
        state.chunks
        ++ (compact_passes json options counter append passes (with_chunks state.messages cs) []
            s).0.chunks))
      (append_nil state.chunks)
      (Passes-from json options counter append keeps m state.chunks passes state.messages [] s)

-- Of any compaction: no message that was shown, or summed up by a chunk, is lost.
pub compact_context-IsCovered :
    {S : Type 0} (json : Stringify) (options : WindowOptions) (counter : TokenCounter)
    (append : ChunkInput → S → ChunkRecord × S) (state : ContextState) (s : S)
    → KeepsRange append
    → IsCovered state.messages state.chunks
    → IsCovered state.messages
        (state.chunks ++ (compact_context json options counter append state s).0.chunks)
unfolding compact_context
compact_context-IsCovered json options counter append state s keeps h =
    Passes-IsCovered _ _ _ _
      (compact_passes-Passes json (resolve_options options) counter append _ state s keeps
        (min_chunk-pos options))
      h

-- When there are more messages than the fresh tail has, each message of the tail that was above the
-- watermark, and so shown, before a compaction is so after it, whatever is appended with the range of each
-- planned chunk.
pub compact_context-tail :
    {S : Type 0} (json : Stringify) (options : WindowOptions) (counter : TokenCounter)
    (append : ChunkInput → S → ChunkRecord × S) (state : ContextState) (s : S) (r : MessageRecord)
    → KeepsRange append
    → (resolve_options options).fresh_tail_count < length state.messages
    → In r (fresh_tail state.messages (resolve_options options).fresh_tail_count)
    → latest_chunk_end state.chunks < r.store_id
    → latest_chunk_end
        (state.chunks ++ (compact_context json options counter append state s).0.chunks)
      < r.store_id
unfolding compact_context
compact_context-tail json options counter append state s r keeps h m k =
    Passes-tail _ _ _ _ r
      (compact_passes-Passes json (resolve_options options) counter append _ state s keeps
        (min_chunk-pos options))
      h m k

abbrev writes : (Session → ℕ) → ChunkInput → Session → ChunkRecord × Session
writes now input t = append_context_chunk (now t) input t

writes-KeepsRange : (now : Session → ℕ) → KeepsRange (writes now)
unfolding append_context_chunk
writes-KeepsRange now input s = (refl, refl)

-- The file after the passes: the chunks at its end, the messages as before.
abbrev IsLogged : List ChunkRecord → List MessageRecord → List ChunkRecord → Session → Type 0
IsLogged base messages added t =
    (context_chunks t.file ≡ base ++ added) × (message_records t.file ≡ messages)

writes-IsLogged :
    (now : Session → ℕ) (input : ChunkInput) (base added : List ChunkRecord)
    (messages : List MessageRecord) (t : Session)
    → IsLogged base messages added t
    → IsLogged base messages (added ++ (writes now input t).0 ∷ []) (writes now input t).1
unfolding append_context_chunk append_record message_records context_chunks
writes-IsLogged now input base added messages t (e, f) = (
  context_chunks-append t.file _
      ∙ (ap (λ cs. cs ++ (writes now input t).0 ∷ []) e ∙ append_assoc base added _),
  message_records-same t.file (chunked _ ∷ []) refl ∙ f,
)

module _ (json : Stringify) (options : ResolvedOptions) (counter : TokenCounter)
    (now : Session → ℕ) where
  compact_passes-IsLogged :
      (passes : ℕ) (state : ContextState) (base added : List ChunkRecord)
      (messages : List MessageRecord) (t : Session)
      → IsLogged base messages added t
      → IsLogged base messages
          (compact_passes json options counter (writes now) passes state added t).0.chunks
          (compact_passes json options counter (writes now) passes state added t).1
  unfolding compact_passes
  compact_passes-IsLogged zero state base added messages t h = h
  compact_passes-IsLogged (suc passes) state base added messages t h =
      elim (Plan-cases (plan_compaction json state options counter)) [
        | inr (why, e) ↦ rw (compact_passes, e) h
        | inl (input, e) ↦
            rw (compact_passes, e)
              (compact_passes-IsLogged passes _ base _ messages _
                (writes-IsLogged now input base added messages t h))
      ]

  compact_passes-Reaches :
      (passes : ℕ) (state : ContextState) (added : List ChunkRecord) (s t : Session)
      → Reaches s t
      → Reaches s (compact_passes json options counter (writes now) passes state added t).1
  unfolding compact_passes
  compact_passes-Reaches zero state added s t h = h
  compact_passes-Reaches (suc passes) state added s t h =
      elim (Plan-cases (plan_compaction json state options counter)) [
        | inr (why, e) ↦ rw (compact_passes, e) h
        | inl (input, e) ↦
            rw (compact_passes, e)
              (compact_passes-Reaches passes _ _ s _ (sums_up (now t) input s t h))
      ]

-- The messages a short reading leaves out are in the range of chunks that stay.
whole-IsCovered :
    (messages : List MessageRecord) (chunks added : List ChunkRecord)
    → IsCovered messages chunks
    → IsCovered (filter (λ r. ltb (latest_chunk_end chunks) r.store_id) messages) (chunks ++ added)
    → IsCovered messages (chunks ++ added)
whole-IsCovered messages chunks added h k =
    All-imp _ _
      (λ r both. elim both.0 [
        | inl higher ↦ both.1 (ground arith)
        | inr old ↦ inr (InRange-old r.store_id chunks added old)
      ])
      messages (All-both _ _ messages h (filter-All _ _ messages k))

shown-IsCovered :
    (chunks : List ChunkRecord) (messages : List MessageRecord)
    → IsCovered (filter (λ r. ltb (latest_chunk_end chunks) r.store_id) messages) chunks
shown-IsCovered chunks messages =
    All-imp _ _ (λ r e. inl (ground (arith, e))) _
      (All-filter_keep (λ r. ltb (latest_chunk_end chunks) r.store_id) messages)

read_context_state-Reaches :
    (options : WindowOptions) (s : Session) → Reaches s (read_context_state options s).1
unfolding read_context_state
read_context_state-Reaches options s = elim (Bool-cases (resolve_options options).enabled) [
  | inl on ↦ rw (read_context_state, on) (stays s)
  | inr off ↦ rw (read_context_state, off) (reads s s (stays s))
]

-- What a compaction relies on of the state that was read: the chunks are the file's, and the messages
-- that it lacks are covered whatever is added.
abbrev IsRead : Session → ContextState × Session → Type 0
IsRead s (state, t) =
    (state.chunks ≡ context_chunks s.file)
    × (t.file ≡ s.file)
    × IsCovered state.messages state.chunks
    × ((added : List ChunkRecord)
        → IsCovered state.messages (state.chunks ++ added)
        → IsCovered (message_records s.file) (state.chunks ++ added))

read_context_state-IsRead :
    (options : WindowOptions) (s : Session)
    → IsCovered (message_records s.file) (context_chunks s.file)
    → IsRead s (read_context_state options s)
unfolding read_context_state read_compacted_state read_records
read_context_state-IsRead options s h = elim (Bool-cases (resolve_options options).enabled) [
  | inl on ↦
      let chunks = context_chunks s.file in
      let e = read_messages_after-filter s.file (latest_chunk_end chunks) in
      rw (read_context_state, on)
        (
          refl,
          refl,
          subst (λ ms. IsCovered ms chunks) (sym e)
              (shown-IsCovered chunks (message_records s.file)),
          λ added k.
              whole-IsCovered (message_records s.file) chunks added h
                (subst (λ ms. IsCovered ms (chunks ++ added)) e k),
        )
  | inr off ↦ rw (read_context_state, off) (refl, refl, h, λ added k. k)
]

-- A session's compaction writes chunks to its file and nothing else, and loses no message: one that the
-- file's chunks did not leave out they do not leave out afterwards. The reading before it, which skips
-- the messages below the watermark, is enough for that.
pub compact_session-IsCovered :
    (json : Stringify) (now : Session → ℕ) (options : WindowOptions) (s : Session)
    → IsCovered (message_records s.file) (context_chunks s.file)
    → (message_records (compact_session json now options s).1.file ≡ message_records s.file)
      × IsCovered
          (message_records s.file)
          (context_chunks (compact_session json now options s).1.file)
unfolding compact_session compact_context
compact_session-IsCovered json now options s h =
    let state = (read_context_state options s).0 in
    let t = (read_context_state options s).1 in
    let (same_chunks, same_file, seen, rest) = read_context_state-IsRead options s h in
    let after = compact_context json options (heuristic_counter json) (writes now) state t in
    let (logged, same_messages) =
      compact_passes-IsLogged json (resolve_options options) (heuristic_counter json) now
        (or_else options.max_compaction_passes 16) state state.chunks [] (message_records t.file) t
        (ap context_chunks same_file ∙ (sym same_chunks ∙ sym (append_nil state.chunks)), refl) in
    let covered =
      compact_context-IsCovered json options (heuristic_counter json) (writes now) state t
        (writes-KeepsRange now) seen in
    (
      same_messages ∙ ap message_records same_file,
      subst (IsCovered (message_records s.file)) (sym logged) (rest after.0.chunks covered),
    )

-- A compaction is a sequence of the session's steps.
pub compact_session-Reaches :
    (json : Stringify) (now : Session → ℕ) (options : WindowOptions) (s : Session)
    → Reaches s (compact_session json now options s).1
unfolding compact_session compact_context
compact_session-Reaches json now options s =
    compact_passes-Reaches json (resolve_options options) (heuristic_counter json) now
      (or_else options.max_compaction_passes 16) _ [] s _ (read_context_state-Reaches options s)
