-- ===== src/Session/Covering.antt =====
-- The passes of a compaction (packages/session/src/session-compaction.ts) as steps on the chunks.
use snapdragon.Prelude.{
  ℕ, zero, suc, ◌≤◌, ◌<◌, ◌≡◌, refl, sym, ◌∙◌, ◌⊎◌, inl, inr, Bool-cases, List, [], ◌∷◌, ◌++◌, All,
  All-imp, All-both, In, In-All, length, leb, append_assoc, arith,
}
use mathlib.Core.Path.{subst}
use snapdragon.Session.Records.{MessageRecord, ChunkInput, ChunkRecord, ResolvedOptions}
use snapdragon.Session.Tokens.{Stringify, TokenCounter}
use snapdragon.Session.Packing.{latest_chunk_end}
use snapdragon.Session.Window.{
  ContextState, Plan, compacts, stops, Reason, plan_compaction, compact_passes,
}
use snapdragon.Session.FreshTail.{fresh_tail}
use snapdragon.Session.Planning.{IsPlanned, plan_compaction-IsPlanned}
use snapdragon.Session.Watermark.{latest_chunk_end-append}

abbrev pub with_chunks : List MessageRecord → List ChunkRecord → ContextState
with_chunks messages chunks = record { messages = messages; chunks = chunks }

-- From some chunks to more of them, each planned against the ones before it.
pub data Passes (messages : List MessageRecord) (options : ResolvedOptions)
    : List ChunkRecord → List ChunkRecord → Type 0 where
  done : (chunks : List ChunkRecord) → Passes messages options chunks chunks
  pass :
      (chunks after : List ChunkRecord) (input : ChunkInput) (c : ChunkRecord)
      → IsPlanned (with_chunks messages chunks) options input
      → c.range_start ≡ input.range_start
      → c.range_end ≡ input.range_end
      → Passes messages options (chunks ++ c ∷ []) after
      → Passes messages options chunks after

-- What a compaction relies on: the chunk that is written has the range that was planned.
abbrev pub KeepsRange : {S : Type 0} → (ChunkInput → S → ChunkRecord × S) → Type 0
KeepsRange {S} append =
    (input : ChunkInput) (s : S)
    → ((append input s).0.range_start ≡ input.range_start)
      × ((append input s).0.range_end ≡ input.range_end)

pub Plan-cases :
    (p : Plan) → ((input : ChunkInput) × (p ≡ compacts input)) ⊎ ((why : Reason) × (p ≡ stops why))
Plan-cases (compacts input) = inl (input, refl)
Plan-cases (stops why) = inr (why, refl)

module _ {S : Type 0} (json : Stringify) (options : ResolvedOptions) (counter : TokenCounter)
    (append : ChunkInput → S → ChunkRecord × S) (keeps : KeepsRange append)
    (m : 0 < options.min_chunk_messages) (base : List ChunkRecord) where
  -- The passes of a compaction are such steps.
  pub Passes-from :
      (passes : ℕ) (messages : List MessageRecord) (added : List ChunkRecord) (s : S)
      → Passes messages options (base ++ added) (
          base
          ++ (compact_passes json options counter append passes
              (with_chunks messages (base ++ added))
              added
              s).0.chunks)
  unfolding compact_passes
  Passes-from zero messages added s = done (base ++ added)
  Passes-from (suc passes) messages added s =
      elim (Plan-cases
        (plan_compaction json (with_chunks messages (base ++ added)) options counter)) [
          | inr (why, e) ↦ rw (compact_passes, e) (done (base ++ added))
          | inl (input, e) ↦
              let (c, s') = append input s in
              let (starts, ends) = keeps input s in
              let planned =
                plan_compaction-IsPlanned json (with_chunks messages (base ++ added)) options
                  counter input m e in
              rw (compact_passes, e)
                (pass (base ++ added) _ input c planned starts ends (
                  subst
                    (λ chunks. Passes messages options chunks (
                      base
                      ++ (compact_passes json options counter append passes
                          (with_chunks messages chunks) (added ++ c ∷ []) s').0.chunks))
                    (sym (append_assoc base added (c ∷ [])))
                    (Passes-from passes messages (added ++ c ∷ []) s')))
        ]

-- Some chunk has the id in its range.
abbrev pub InRange : ℕ → List ChunkRecord → Type 0
InRange id [] = ⊥
InRange id (c ∷ chunks) = ((c.range_start ≤ id) × (id ≤ c.range_end)) ⊎ InRange id chunks

pub InRange-old :
    (id : ℕ) (chunks more : List ChunkRecord) → InRange id chunks → InRange id (chunks ++ more)
InRange-old id [] more h = elim h [ ]
InRange-old id (c ∷ chunks) more (inl h) = inl h
InRange-old id (c ∷ chunks) more (inr h) = inr (InRange-old id chunks more h)

InRange-new :
    (id : ℕ) (chunks : List ChunkRecord) (c : ChunkRecord)
    → c.range_start ≤ id
    → id ≤ c.range_end
    → InRange id (chunks ++ c ∷ [])
InRange-new id [] c h k = inl (h, k)
InRange-new id (d ∷ chunks) c h k = inr (InRange-new id chunks c h k)

-- No message is lost: each stands above the watermark, where a request shows it, or in the range of a
-- chunk, whose summary a request shows.
abbrev pub IsCovered : List MessageRecord → List ChunkRecord → Type 0
IsCovered messages chunks =
    All (λ r. (latest_chunk_end chunks < r.store_id) ⊎ InRange r.store_id chunks) messages

-- The watermark is the end of the chunk that was written last.
pub pass-watermark :
    (messages : List MessageRecord) (options : ResolvedOptions) (chunks : List ChunkRecord)
    (input : ChunkInput) (c : ChunkRecord)
    → IsPlanned (with_chunks messages chunks) options input
    → c.range_start ≡ input.range_start
    → c.range_end ≡ input.range_end
    → latest_chunk_end (chunks ++ c ∷ []) ≡ c.range_end
pass-watermark messages options chunks input c planned starts ends =
    let above = planned.above in
    let ordered = planned.ordered in
    latest_chunk_end-append chunks c ∙ ground (arith, above, ordered, starts, ends)

pass-IsCovered :
    (messages : List MessageRecord) (options : ResolvedOptions) (chunks : List ChunkRecord)
    (input : ChunkInput) (c : ChunkRecord)
    → IsPlanned (with_chunks messages chunks) options input
    → c.range_start ≡ input.range_start
    → c.range_end ≡ input.range_end
    → IsCovered messages chunks
    → IsCovered messages (chunks ++ c ∷ [])
pass-IsCovered messages options chunks input c planned starts ends h =
    let watermark = pass-watermark messages options chunks input c planned starts ends in
    All-imp _ _
      (λ r both. elim both.0 [
        | inr old ↦ inr (InRange-old r.store_id chunks (c ∷ []) old)
        | inl higher ↦ elim (Bool-cases (leb r.store_id c.range_end)) [
          | inl within ↦
              let le : r.store_id ≤ c.range_end = ground arith in
              let from : c.range_start ≤ r.store_id =
                omega (arith, starts, both.1 higher (omega (arith, le, ends))) in
              inr (InRange-new r.store_id chunks c from le)
          | inr past ↦ inl (ground (arith, watermark))
        ]
      ])
      messages (All-both _ _ messages h planned.complete)

pub Passes-IsCovered :
    (messages : List MessageRecord) (options : ResolvedOptions) (chunks after : List ChunkRecord)
    → Passes messages options chunks after
    → IsCovered messages chunks
    → IsCovered messages after
Passes-IsCovered messages options _ _ (done chunks) h = h
Passes-IsCovered messages options _ _ (pass chunks after input c planned starts ends rest) h =
    Passes-IsCovered messages options (chunks ++ c ∷ []) after rest
      (pass-IsCovered messages options chunks input c planned starts ends h)

-- A message of the fresh tail that is shown before the passes is shown after them.
pub Passes-tail :
    (messages : List MessageRecord) (options : ResolvedOptions) (chunks after : List ChunkRecord)
    (r : MessageRecord)
    → Passes messages options chunks after
    → options.fresh_tail_count < length messages
    → In r (fresh_tail messages options.fresh_tail_count)
    → latest_chunk_end chunks < r.store_id
    → latest_chunk_end after < r.store_id
Passes-tail messages options _ _ r (done chunks) h m k = k
Passes-tail messages options _ _ r (pass chunks after input c planned starts ends rest) h m k =
    let watermark = pass-watermark messages options chunks input c planned starts ends in
    let past : input.range_end < r.store_id = elim planned.before [
      | inl few ↦ absurd (omega (arith, few, h))
      | inr all ↦ In-All _ _ r all m
    ] in
    Passes-tail messages options (chunks ++ c ∷ []) after r rest h m
      (omega (arith, watermark, ends, past))
