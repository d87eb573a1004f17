-- ===== src/Session/Ending.antt =====
-- Why the passes of a compaction (packages/session/src/session-compaction.ts) come to an end.
use snapdragon.Prelude.{
  ℕ, zero, suc, ◌≤◌, ◌<◌, ◌≡◌, refl, ap, inl, inr, some, List, [], ◌∷◌, ◌++◌, In, filter, length,
  arith, ltb,
}
use snapdragon.Session.Records.{MessageRecord, ChunkInput, ChunkRecord, ResolvedOptions}
use snapdragon.Session.Tokens.{Stringify, TokenCounter}
use snapdragon.Session.Packing.{latest_chunk_end}
use snapdragon.Session.Window.{Reason, plan_compaction, compact_passes}
use snapdragon.Session.Planning.{plan_compaction-IsPlanned}
use snapdragon.Session.Covering.{KeepsRange, Plan-cases, pass-watermark, with_chunks}

-- The messages that a request shows as they are.
abbrev pub above : ℕ → List MessageRecord → List MessageRecord
above watermark messages = filter (λ r. ltb watermark r.store_id) messages

above-le :
    (low high : ℕ) (messages : List MessageRecord)
    → low ≤ high
    → length (above high messages) ≤ length (above low messages)
above-le low high [] h = omega arith
above-le low high (r ∷ messages) h = ground (arith, above-le low high messages h)

-- One of them is gone when the watermark reaches it.
above-lt :
    (low high : ℕ) (messages : List MessageRecord) (c : MessageRecord)
    → In c messages
    → low < c.store_id
    → c.store_id ≤ high
    → length (above high messages) < length (above low messages)
above-lt low high [] c m h k = elim m [ ]
above-lt low high (r ∷ messages) c (inl e) h k =
    let same : c.store_id ≡ r.store_id = ap (λ q. q.store_id) e in
    ground (arith, same, above-le low high messages (omega (arith, h, k)))
above-lt low high (r ∷ messages) c (inr m) h k =
    ground (arith, h, k, above-lt low high messages c m h k)

module _ {S : Type 0} (json : Stringify) (options : ResolvedOptions) (counter : TokenCounter)
    (append : ChunkInput → S → ChunkRecord × S) (keeps : KeepsRange append)
    (m : 0 < options.min_chunk_messages) (messages : List MessageRecord) where
  -- With more passes than messages above the watermark, the last plan says why no chunk is left to make.
  pub compact_passes-end :
      (passes : ℕ) (chunks added : List ChunkRecord) (s : S)
      → length (above (latest_chunk_end chunks) messages) < passes
      → (why : Reason) × ((compact_passes json options counter append passes
            (with_chunks messages chunks)
            added
            s).0.reason
          ≡ some why)
  unfolding compact_passes
  compact_passes-end zero chunks added s h = absurd (omega arith)
  compact_passes-end (suc passes) chunks added s h =
      elim (Plan-cases (plan_compaction json (with_chunks messages chunks) options counter)) [
        | inr (why, e) ↦ (why, rw (compact_passes, e) refl)
        | inl (input, e) ↦
            let (c, s') = append input s in
            let (starts, ends) = keeps input s in
            let planned =
              plan_compaction-IsPlanned json (with_chunks messages chunks) options counter input m
                e in
            let watermark = pass-watermark messages options chunks input c planned starts ends in
            let (first, member, at) = planned.starts in
            let higher = planned.above in
            let ordered = planned.ordered in
            let fewer =
              above-lt (latest_chunk_end chunks) (latest_chunk_end (chunks ++ c ∷ [])) messages
                first member (omega (arith, at, higher))
                (omega (arith, at, ordered, watermark, ends)) in
            rw (compact_passes, e)
              (compact_passes-end passes (chunks ++ c ∷ []) (added ++ c ∷ []) s'
                (omega (arith, h, fewer)))
      ]
