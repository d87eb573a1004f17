-- ===== src/Session/Selecting.antt =====
-- Which messages a compaction takes (packages/session/src/context-packing.ts).
use snapdragon.Prelude.{
  ◌+◌, Option-cases, append_nil, find_index, eqb, ℕ, zero, suc, ◌≡◌, refl, sym, ◌⊎◌, inl, inr, Bool,
  true, false, ◌&&◌, Bool-cases, some, List, [], ◌∷◌, ◌++◌, All, All-append, All-drop, first, last,
  take, drop, take_while, ltb,
}
use snapdragon.Session.Records.{MessageRecord}
use snapdragon.Session.Tokens.{TokenCounter, estimate_record_tokens}
use snapdragon.Session.Packing.{
  pack_from, pack_until_target, is_tool_result, trailing_assistant_index,
  append_following_tool_results, has_tool_results_for, extend_through_tool_results,
  select_chunk_messages,
}

abbrev Anything : MessageRecord → Type 0
Anything r = Unit

everything : (xs : List MessageRecord) → All Anything xs
everything [] = tt
everything (x ∷ xs) = (tt, everything xs)

module _ {ℓ κ} {A : Type ℓ} (P : A → Type κ) where
  All-take : (n : ℕ) (xs : List A) → All P xs → All P (take n xs)
  All-take zero xs h = tt
  All-take (suc n) [] h = tt
  All-take (suc n) (x ∷ xs) (p, h) = (p, All-take n xs h)

  All-take_while : (test : A → Bool) (xs : List A) → All P xs → All P (take_while test xs)
  All-take_while test [] h = tt
  All-take_while test (x ∷ xs) (p, h) = elim (Bool-cases (test x)) [
    | inl e ↦ rw e (p, All-take_while test xs h)
    | inr e ↦ rw e tt
  ]

-- The three ways in which a selection is extended.
pub extend-cases :
    (selected cs : List MessageRecord)
    → (extend_through_tool_results selected cs ≡ selected)
      ⊎ (extend_through_tool_results selected cs ≡ append_following_tool_results selected cs)
      ⊎ ((i : ℕ) × (extend_through_tool_results selected cs
            ≡ take i (append_following_tool_results selected cs)))
unfolding extend_through_tool_results
extend-cases selected cs = elim (Option-cases (trailing_assistant_index selected)) [
  | inl e ↦ inl (rw (extend_through_tool_results, e) refl)
  | inr (i, e) ↦
      elim (Bool-cases (has_tool_results_for (append_following_tool_results selected cs) i)) [
        | inl f ↦ inr (inl (rw (extend_through_tool_results, e, f) refl))
        | inr f ↦ inr (inr (i, rw (extend_through_tool_results, e, f) refl))
      ]
]

-- The results that follow are taken from the candidates and put at the end.
pub append_following-end :
    (P : MessageRecord → Type 0) (selected cs : List MessageRecord)
    → All P cs
    → (more : List MessageRecord) × (append_following_tool_results selected cs ≡ selected ++ more)
      × All P more
unfolding append_following_tool_results
append_following-end P selected cs h = elim (Option-cases (last selected)) [
  | inl e ↦ ([], rw (append_following_tool_results, e) (sym (append_nil selected)), tt)
  | inr (r, e) ↦ elim (Option-cases (find_index (λ c. eqb c.store_id r.store_id) cs)) [
    | inl f ↦ ([], rw (append_following_tool_results, e, f) (sym (append_nil selected)), tt)
    | inr (i, f) ↦ (
      take_while is_tool_result (drop (suc i) cs),
      rw (append_following_tool_results, e, f) refl,
      All-take_while P is_tool_result _ (All-drop P (suc i) cs h),
    )
  ]
]

module _ (P : MessageRecord → Type 0) where
  All-pack_from :
      (target : ℕ) (counter : TokenCounter) (started : Bool) (used : ℕ) (cs : List MessageRecord)
      → All P cs
      → All P (pack_from target counter started used cs)
  unfolding pack_from
  All-pack_from target counter started used [] h = tt
  All-pack_from target counter started used (c ∷ cs) (p, h) =
      let used' = used + estimate_record_tokens c counter in
      elim (Bool-cases (started && ltb target used')) [
        | inl e ↦ rw e tt
        | inr e ↦ rw e (p, All-pack_from target counter true used' cs h)
      ]

  All-append_following :
      (selected cs : List MessageRecord)
      → All P selected
      → All P cs
      → All P (append_following_tool_results selected cs)
  All-append_following selected cs h k =
      let (more, e, m) = append_following-end P selected cs k in
      rw e (All-append P selected more h m)

  -- Whatever holds of the candidates holds of the selected messages.
  pub All-select :
      (cs : List MessageRecord) (target : ℕ) (counter : TokenCounter)
      → All P cs
      → All P (select_chunk_messages cs target counter)
  unfolding select_chunk_messages pack_until_target
  All-select cs target counter h =
      let packed = All-pack_from target counter false 0 cs h in
      let extended = All-append_following _ cs packed h in
      elim (extend-cases (pack_until_target cs target counter) cs) [
        | inl e ↦ rw e packed
        | inr (inl e) ↦ rw e extended
        | inr (inr (i, e)) ↦ rw e (All-take P i _ extended)
      ]

-- The first of the candidates is the first of the selected messages, if any is selected.
pub first-select :
    (c : MessageRecord) (cs : List MessageRecord) (target : ℕ) (counter : TokenCounter)
    → (select_chunk_messages (c ∷ cs) target counter ≡ [])
      ⊎ (first (select_chunk_messages (c ∷ cs) target counter) ≡ some c)
unfolding select_chunk_messages pack_until_target pack_from
first-select c cs target counter =
    let (more, f, _) =
      append_following-end Anything (pack_until_target (c ∷ cs) target counter) (c ∷ cs)
        (everything (c ∷ cs)) in
    elim (extend-cases (pack_until_target (c ∷ cs) target counter) (c ∷ cs)) [
      | inl e ↦ inr (rw e refl)
      | inr (inl e) ↦ inr (rw (e, f) refl)
      | inr (inr (zero, e)) ↦ inl (rw e refl)
      | inr (inr (suc i, e)) ↦ inr (rw (e, f) refl)
    ]
