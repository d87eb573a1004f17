-- ===== src/Session/Planning.antt =====
-- What a planned chunk stands for (`planContextCompaction` in packages/session/src/context-window.ts).
use snapdragon.Prelude.{
  All-both, ℕ, ◌≤◌, ◌<◌, ◌≡◌, refl, sym, ap, ◌∙◌, ◌⊎◌, inl, inr, Bool, true, false, not, ◌||◌,
  Bool-cases, Option, none, some, List, [], ◌∷◌, All, All-filter, All-filter_keep, All-imp, filter,
  filter-All, length, first, last, In, All-In, arith, ltb, leb,
}
use mathlib.Core.Path.{subst}
use snapdragon.Prelude.Sorting.{sort, IsSorted, sort-IsSorted, sort-All, All-sort}
use snapdragon.Session.Records.{MessageRecord, ChunkInput, deterministic, ResolvedOptions}
use snapdragon.Session.Tokens.{Stringify, TokenCounter}
use snapdragon.Session.Packing.{
  sum_record_tokens, latest_chunk_end, tail_start_store_id, before_tail, is_candidate,
  compaction_candidates, select_chunk_messages,
}
use snapdragon.Session.Summary.{SummaryText, summarize_messages}
use snapdragon.Session.Window.{
  ContextState, is_older, sorted_messages, below_target, no_smaller, disabled, compacts, stops,
  id_of, plan_selected, plan_candidates, plan_compaction, should_compact,
}
use snapdragon.Session.FreshTail.{fresh_tail, fresh_tail-kept, before-start, is_older-IsOrder}
use snapdragon.Session.Selecting.{All-select, first-select}

-- The chunk has at least one message, and is that of the selected ones.
abbrev Stands : ChunkInput → List MessageRecord → Type 0
Stands input selected =
    (input.range_start ≡ id_of (first selected))
    × (input.range_end ≡ id_of (last selected))
    × (input.summary_token_count < input.source_token_count)
    × (0 < length selected)

abbrev chunk_of : List MessageRecord → ℕ → SummaryText → ChunkInput
chunk_of selected source s = record {
  range_start = id_of (first selected);
  range_end = id_of (last selected);
  summary_text = s.summary_text;
  source_token_count = source;
  summary_token_count = s.tokens;
  level = deterministic;
  created_by_model = none;
  meta = none;
}

plan_selected-Stands :
    (json : Stringify) (options : ResolvedOptions) (counter : TokenCounter)
    (selected : List MessageRecord) (input : ChunkInput)
    → 0 < options.min_chunk_messages
    → plan_selected json options counter selected ≡ compacts input
    → Stands input selected
unfolding plan_selected
plan_selected-Stands json options counter selected input m e =
    let source = sum_record_tokens selected counter in
    let s = summarize_messages json selected options.summary_target_tokens counter in
    elim (Bool-cases (ltb (length selected) options.min_chunk_messages)) [
      | inl f ↦ let stop : stops below_target ≡ compacts input = rw (plan_selected, f) at e in cc
      | inr f ↦ elim (Bool-cases (leb source s.tokens)) [
        | inl g ↦ let stop : stops no_smaller ≡ compacts input = rw (plan_selected, f, g) at e in cc
        | inr g ↦
            let here : compacts (chunk_of selected source s) ≡ compacts input =
              rw (plan_selected, f, g) at e in
            let same : chunk_of selected source s ≡ input = cc in
            subst (λ i. Stands i selected) same (refl, refl, ground arith, ground arith)
      ]
    ]

plan_candidates-Stands :
    (json : Stringify) (options : ResolvedOptions) (counter : TokenCounter) (view : ℕ)
    (cs : List MessageRecord) (input : ChunkInput)
    → 0 < options.min_chunk_messages
    → plan_candidates json options counter view cs ≡ compacts input
    → (c : MessageRecord) × (rest : List MessageRecord) × (cs ≡ c ∷ rest)
      × Stands input (select_chunk_messages cs options.chunk_target_tokens counter)
unfolding plan_candidates
plan_candidates-Stands json options counter view [] input m e = cc
plan_candidates-Stands json options counter view (c ∷ cs) input m e =
    elim (Bool-cases (
      not (should_compact options (sum_record_tokens (c ∷ cs) counter) view)
      || ltb (length (c ∷ cs)) options.min_chunk_messages)) [
        | inl f ↦
            let stop : stops below_target ≡ compacts input = rw (plan_candidates, f) at e in cc
        | inr f ↦ (
          c,
          cs,
          refl,
          plan_selected-Stands json options counter _ input m (rw (plan_candidates, f) at e),
        )
      ]

-- What a plan promises of its chunk: it starts above the watermark, ends at or after its start, costs fewer
-- tokens than what it stands for, starts at a message, and no message between the watermark and its end is
-- left out. It ends before each message of the fresh tail, unless there are no more messages than the tail
-- has.
pub record IsPlanned (state : ContextState) (options : ResolvedOptions) (input : ChunkInput)
    : Type 0 where
  pub above : latest_chunk_end state.chunks < input.range_start
  pub ordered : input.range_start ≤ input.range_end
  pub before :
      (length state.messages ≤ options.fresh_tail_count)
      ⊎ All (λ r. input.range_end < r.store_id) (fresh_tail state.messages options.fresh_tail_count)
  pub smaller : input.summary_token_count < input.source_token_count
  pub starts : (c : MessageRecord) × In c state.messages × (c.store_id ≡ input.range_start)
  pub complete :
      All
        (λ r.
          latest_chunk_end state.chunks < r.store_id
          → r.store_id ≤ input.range_end
          → input.range_start ≤ r.store_id)
        state.messages

-- The last of some messages is one of them.
last-All :
    (P : MessageRecord → Type 0) (xs : List MessageRecord)
    → All P xs
    → 0 < length xs
    → (r : MessageRecord) × (last xs ≡ some r) × P r
last-All P [] h l = absurd (omega arith)
last-All P (x ∷ []) (p, h) l = (x, refl, p)
last-All P (x ∷ y ∷ xs) (p, h) l = last-All P (y ∷ xs) h (omega arith)

-- The first of the messages that pass a test is the oldest of them.
oldest :
    (keep : MessageRecord → Bool) (xs : List MessageRecord) (c : MessageRecord)
    (rest : List MessageRecord)
    → IsSorted is_older xs
    → filter keep xs ≡ c ∷ rest
    → All (λ r. c.store_id ≤ r.store_id) (c ∷ rest)
oldest keep [] c rest h e = cc
oldest keep (x ∷ xs) c rest (p, h) e = elim (Bool-cases (keep x)) [
  | inl f ↦
      let here : x ∷ filter keep xs ≡ c ∷ rest = rw f at e in
      let later : All (λ r. is_older r x ≡ false) (filter keep xs) = All-filter _ keep xs p in
      let same : c.store_id ≡ x.store_id = cc in
      subst (All (λ r. c.store_id ≤ r.store_id)) here
        (omega (arith, same), All-imp _ _ (λ r q. ground (arith, q, same)) _ later)
  | inr f ↦ oldest keep xs c rest h (rw f at e)
]

-- A message above the watermark that is no later than a candidate is a candidate.
earlier-is_candidate :
    (watermark : ℕ) (start : Option ℕ) (r q : MessageRecord)
    → is_candidate watermark start r ≡ true
    → watermark < q.store_id
    → q.store_id ≤ r.store_id
    → is_candidate watermark start q ≡ true
earlier-is_candidate watermark none r q e h l = ground arith
earlier-is_candidate watermark (some start) r q e h l = ground arith

first-select-id :
    (c : MessageRecord) (cs : List MessageRecord) (target : ℕ) (counter : TokenCounter)
    → 0 < length (select_chunk_messages (c ∷ cs) target counter)
    → id_of (first (select_chunk_messages (c ∷ cs) target counter)) ≡ c.store_id
first-select-id c cs target counter h = elim (first-select c cs target counter) [
  | inl e ↦
      let none_selected : 0 < length {A = MessageRecord} [] = rw e at h in absurd (omega arith)
  | inr e ↦ ap id_of e
]

plan_compaction-candidates :
    (json : Stringify) (state : ContextState) (options : ResolvedOptions) (counter : TokenCounter)
    (input : ChunkInput)
    → 0 < options.min_chunk_messages
    → plan_compaction json state options counter ≡ compacts input
    → (c : MessageRecord) × (rest : List MessageRecord) × (compaction_candidates
          (sorted_messages state.messages)
          state.chunks
          options
        ≡ c ∷ rest)
      × Stands input (
          select_chunk_messages
            (compaction_candidates (sorted_messages state.messages) state.chunks options)
            options.chunk_target_tokens
            counter)
unfolding plan_compaction
plan_compaction-candidates json state options counter input m e =
    elim (Bool-cases options.enabled) [
      | inl f ↦
          plan_candidates-Stands json options counter _ _ input m (rw (plan_compaction, f) at e)
      | inr f ↦ let stop : stops disabled ≡ compacts input = rw (plan_compaction, f) at e in cc
    ]

-- What ends at a candidate ends before the fresh tail, if there is one.
ends_before :
    (state : ContextState) (options : ResolvedOptions) (id range_end : ℕ)
    → range_end ≡ id
    → before_tail id (tail_start_store_id (sorted_messages state.messages) options.fresh_tail_count)
      ≡ true
    → (length state.messages ≤ options.fresh_tail_count)
      ⊎ All (λ r. range_end < r.store_id) (fresh_tail state.messages options.fresh_tail_count)
ends_before state options id range_end e h =
    elim (Bool-cases (leb (length state.messages) options.fresh_tail_count)) [
      | inl few ↦ inl (ground arith)
      | inr many ↦ inr (
          All-imp _ _ (λ r k. omega (arith, e, before-start id r.store_id _ h k)) _
            (fresh_tail-kept state.messages options.fresh_tail_count (ground arith)))
    ]

pub plan_compaction-IsPlanned :
    (json : Stringify) (state : ContextState) (options : ResolvedOptions) (counter : TokenCounter)
    (input : ChunkInput)
    → 0 < options.min_chunk_messages
    → plan_compaction json state options counter ≡ compacts input
    → IsPlanned state options input
unfolding compaction_candidates sorted_messages
plan_compaction-IsPlanned json state options counter input m e =
    let watermark = latest_chunk_end state.chunks in
    let sorted = sort is_older state.messages in
    let start = tail_start_store_id sorted options.fresh_tail_count in
    let keep = is_candidate watermark start in
    let target = options.chunk_target_tokens in
    let (c, rest, f, h) = plan_compaction-candidates json state options counter input m e in
    let stands : Stands input (select_chunk_messages (c ∷ rest) target counter) =
      subst (λ cs. Stands input (select_chunk_messages cs target counter)) f h in
    let (range_start, range_end, smaller, some_selected) = stands in
    let in_order = sort-IsSorted is_older is_older-IsOrder state.messages in
    let old : All (λ r. c.store_id ≤ r.store_id) (c ∷ rest) =
      oldest keep sorted c rest in_order f in
    let kept : All (λ r. keep r ≡ true) (c ∷ rest) =
      subst (All (λ r. keep r ≡ true)) f (All-filter_keep keep sorted) in
    let members : All (λ r. In r state.messages) (c ∷ rest) =
      subst (All (λ r. In r state.messages)) f
        (All-filter _ keep sorted (All-sort is_older _ _ (All-In state.messages))) in
    let begins : input.range_start ≡ c.store_id =
      range_start ∙ first-select-id c rest target counter some_selected in
    let (r, is_last, (at_least, passes)) =
      last-All (λ r. (c.store_id ≤ r.store_id) × (keep r ≡ true))
        (select_chunk_messages (c ∷ rest) target counter)
        (All-select _ (c ∷ rest) target counter
          (All-both (λ r. c.store_id ≤ r.store_id) (λ r. keep r ≡ true) (c ∷ rest) old kept))
        some_selected in
    let ends : input.range_end ≡ r.store_id = range_end ∙ ap id_of is_last in
    let passed : All (λ q. keep q ≡ true → c.store_id ≤ q.store_id) state.messages =
      sort-All is_older _ _
        (filter-All _ keep sorted (subst (All (λ q. c.store_id ≤ q.store_id)) (sym f) old)) in
    record {
      above = let first_kept = kept.0 in ground (arith, begins, first_kept);
      ordered = omega (arith, begins, ends, at_least);
      before = ends_before state options r.store_id input.range_end ends (ground (arith, passes));
      smaller = smaller;
      starts = (c, members.0, sym begins);
      complete =
          All-imp _ _
            (λ q g higher lower. omega (
              arith,
              begins,
              g (
                  earlier-is_candidate watermark start r q passes higher
                    (omega (arith, lower, ends))),
            ))
            _ passed;
    }
