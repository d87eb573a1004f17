-- ===== src/Agent/Keeping.antt =====
-- What a request leaves of the session it is made from (packages/agent/src/request-context.ts, with
-- packages/session/src/session.ts).
use snapdragon.Prelude.{
  ℕ, ◌≡◌, refl, sym, ap, ◌∙◌, Bool-cases, inl, inr, Option, none, some, List, [], ◌∷◌,
}
use mathlib.Core.Path.{subst}
use snapdragon.Session.Records.{Message, MessageRecord, WindowOptions, resolve_options}
use snapdragon.Session.Tokens.{Stringify}
use snapdragon.Session.Files.{
  Session, message_records, context_chunks, read_context_state, assemble_context, compact_session,
}
use snapdragon.Session.Covering.{IsCovered}
use snapdragon.Session.Compaction.{compact_session-IsCovered}
use snapdragon.Agent.Budget.{context_options}
use snapdragon.Agent.Context.{
  jsonl_session, Outside, RequestContext, can_compact, attempt, fits, try_tails, assemble_request,
}

-- The messages of the file, none of which is lost.
abbrev pub IsWhole : List MessageRecord → Session → Type 0
IsWhole messages s =
    (message_records s.file ≡ messages) × IsCovered (message_records s.file) (context_chunks s.file)

assemble_context-file :
    (json : Stringify) (options : WindowOptions) (s : Session)
    → (assemble_context json options s).1.file ≡ s.file
unfolding assemble_context read_context_state
assemble_context-file json options s = elim (Bool-cases (resolve_options options).enabled) [
  | inl e ↦ rw (e) refl
  | inr e ↦ rw (e) refl
]

module _ (json : Stringify) (now : Session → ℕ) (outside : Outside) (input : RequestContext Session)
    (context : WindowOptions) where
  abbrev tried : List ℕ → Option (List Message) → Session → Option (List Message) × Session
  tried tails best s =
      try_tails outside input context (jsonl_session json now) (assemble_context json) tails best s

  attempt-IsWhole :
      (messages : List MessageRecord) (tail : ℕ) (s : Session)
      → IsWhole messages s
      → IsWhole messages
          (attempt outside input context (jsonl_session json now) (assemble_context json) tail s).1
  attempt-IsWhole messages tail s (e, h) =
      let options = context_options context tail in
      let (same, covered) = compact_session-IsCovered json now options s h in
      let t = (compact_session json now options s).1 in
      let file = assemble_context-file json options t in
      (
        ap message_records file ∙ (same ∙ e),
        subst (λ f. IsCovered (message_records f) (context_chunks f)) (sym file)
            (subst (λ ms. IsCovered ms (context_chunks t.file)) (sym same) covered),
      )

  try_tails-IsWhole :
      (messages : List MessageRecord) (tails : List ℕ) (best : Option (List Message)) (s : Session)
      → IsWhole messages s
      → IsWhole messages (tried tails best s).1
  unfolding try_tails
  try_tails-IsWhole messages [] best s h = h
  try_tails-IsWhole messages (tail ∷ tails) best s h =
      let (ms, s') =
        attempt outside input context (jsonl_session json now) (assemble_context json) tail s in
      let k = attempt-IsWhole messages tail s h in
      elim (Bool-cases
        (fits outside input context (jsonl_session json now) (assemble_context json) ms)) [
          | inl e ↦ rw (try_tails, e) k
          | inr e ↦ rw (try_tails, e) (try_tails-IsWhole messages tails _ s' k)
        ]

-- Making a request of a session, however often it is compacted for it, keeps the messages of its file,
-- and each of them above the watermark or in the range of a chunk.
pub assemble_request-IsWhole :
    (json : Stringify) (now : Session → ℕ) (outside : Outside) (input : RequestContext Session)
    (context : WindowOptions) (s : Session)
    → can_compact input ≡ some (context, jsonl_session json now, assemble_context json)
    → IsCovered (message_records s.file) (context_chunks s.file)
    → IsWhole (message_records s.file) (assemble_request outside input s).1
unfolding assemble_request
assemble_request-IsWhole json now outside input context s e h =
    rw (assemble_request, e)
      (try_tails-IsWhole json now outside input context (message_records s.file) _ none s (refl, h))
