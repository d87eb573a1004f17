-- ===== src/Session/Prefixes.antt =====
-- A compaction takes the oldest candidates (packages/session/src/context-packing.ts).
use snapdragon.Prelude.{
  ℕ, suc, ◌+◌, ◌<◌, ◌≡◌, refl, sym, ap, ◌∙◌, inl, inr, Bool, true, false, ◌&&◌, Bool-cases, Option,
  none, some, List, [], ◌∷◌, ◌++◌, All, append_assoc, find_index, take, drop, take-drop, take_while,
  last, eqb, ltb, arith, Prefix, Option-cases,
}
use mathlib.Core.Path.{subst}
use snapdragon.Prelude.Increasing.{IsIncreasing}
use snapdragon.Session.Records.{MessageRecord}
use snapdragon.Session.Tokens.{TokenCounter, estimate_record_tokens}
use snapdragon.Session.Packing.{
  pack_from, pack_until_target, is_tool_result, append_following_tool_results,
  select_chunk_messages,
}
use snapdragon.Session.Selecting.{extend-cases}

module _ {ℓ} {A : Type ℓ} where
  take_while-Prefix : (test : A → Bool) (xs : List A) → Prefix (take_while test xs) xs
  take_while-Prefix test [] = ([], refl)
  take_while-Prefix test (x ∷ xs) =
      let (rest, e) = take_while-Prefix test xs in
      elim (Bool-cases (test x)) [
        | inl f ↦ rw f (rest, ap (λ ys. x ∷ ys) e)
        | inr f ↦ rw f (x ∷ xs, refl)
      ]

  take-Prefix : (n : ℕ) (xs ys : List A) → Prefix xs ys → Prefix (take n xs) ys
  take-Prefix n xs ys (rest, e) = (
    drop n xs ++ rest,
    e ∙ (ap (λ zs. zs ++ rest) (sym (take-drop n xs)) ∙ append_assoc (take n xs) (drop n xs) rest),
  )

pack_from-Prefix :
    (target : ℕ) (counter : TokenCounter) (started : Bool) (used : ℕ) (cs : List MessageRecord)
    → Prefix (pack_from target counter started used cs) cs
unfolding pack_from
pack_from-Prefix target counter started used [] = ([], refl)
pack_from-Prefix target counter started used (c ∷ cs) =
    let used' = used + estimate_record_tokens c counter in
    let (rest, e) = pack_from-Prefix target counter true used' cs in
    elim (Bool-cases (started && ltb target used')) [
      | inl f ↦ rw f (c ∷ cs, refl)
      | inr f ↦ rw f (rest, ap (λ ys. c ∷ ys) e)
    ]

abbrev same_id : MessageRecord → MessageRecord → Bool
same_id r c = eqb c.store_id r.store_id

abbrev next : Option ℕ → Option ℕ
next o = elim o [ none ↦ none | some i ↦ some (suc i) ]

last-holds :
    (P : MessageRecord → Type 0) (xs ys : List MessageRecord) (r : MessageRecord)
    → All P (xs ++ ys)
    → last xs ≡ some r
    → P r
last-holds P [] ys r h e = cc
last-holds P (x ∷ []) ys r (p, h) e = let same : x ≡ r = cc in subst P same p
last-holds P (x ∷ y ∷ xs) ys r (p, h) e = last-holds P (y ∷ xs) ys r h e

-- With rising ids the last message of a prefix is found at its place.
find_index-last :
    (xs ys : List MessageRecord) (r : MessageRecord)
    → IsIncreasing (λ c. c.store_id) (xs ++ ys)
    → last xs ≡ some r
    → (i : ℕ) × (find_index (same_id r) (xs ++ ys) ≡ some i) × (drop (suc i) (xs ++ ys) ≡ ys)
find_index-last [] ys r h e = cc
find_index-last (x ∷ []) ys r (p, h) e =
    let same : x.store_id ≡ r.store_id = cc in
    let hit : same_id r x ≡ true = ground (arith, same) in (0, rw hit refl, refl)
find_index-last (x ∷ y ∷ xs) ys r (p, h) e =
    let (i, f, g) = find_index-last (y ∷ xs) ys r h e in
    let before : x.store_id < r.store_id =
      last-holds (λ c. x.store_id < c.store_id) (y ∷ xs) ys r p e in
    let miss : same_id r x ≡ false = ground (arith, before) in (suc i, rw miss (ap next f), g)

append_following-Prefix :
    (selected cs : List MessageRecord)
    → IsIncreasing (λ c. c.store_id) cs
    → Prefix selected cs
    → Prefix (append_following_tool_results selected cs) cs
unfolding append_following_tool_results
append_following-Prefix selected cs h (rest, e) = elim (Option-cases (last selected)) [
  | inl f ↦ rw (append_following_tool_results, f) (rest, e)
  | inr (r, f) ↦
      let (i, g, d) =
        find_index-last selected rest r (subst (IsIncreasing (λ c. c.store_id)) e h) f in
      let at : find_index (same_id r) cs ≡ some i = ap (find_index (same_id r)) e ∙ g in
      let from : drop (suc i) cs ≡ rest = ap (drop (suc i)) e ∙ d in
      let (more, k) = take_while-Prefix is_tool_result rest in
      rw (append_following_tool_results, f, at, from)
        (
          more,
          e
              ∙ (ap (λ ys. selected ++ ys) k
                  ∙ sym (append_assoc selected (take_while is_tool_result rest) more)),
        )
]

-- With rising ids the messages selected are the first of the candidates, without a gap.
pub select_chunk_messages-Prefix :
    (cs : List MessageRecord) (target : ℕ) (counter : TokenCounter)
    → IsIncreasing (λ c. c.store_id) cs
    → Prefix (select_chunk_messages cs target counter) cs
unfolding select_chunk_messages pack_until_target
select_chunk_messages-Prefix cs target counter h =
    let packed = pack_from-Prefix target counter false 0 cs in
    let extended = append_following-Prefix (pack_until_target cs target counter) cs h packed in
    elim (extend-cases (pack_until_target cs target counter) cs) [
      | inl e ↦ rw e packed
      | inr (inl e) ↦ rw e extended
      | inr (inr (i, e)) ↦ rw e (take-Prefix i _ cs extended)
    ]
