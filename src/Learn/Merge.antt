-- ===== src/Learn/Merge.antt =====
-- packages/learn/src/gepa-merge.ts: a child of two candidates. The numbers of the generator come as a
-- list of what they decide, one for each call.
use snapdragon.Prelude.{
  ℕ, ◌+◌, ◌≡◌, refl, sym, ap, ◌∙◌, String, Bool, true, false, not, Bool-cases, inl, inr, Option,
  none, some, List, [], ◌∷◌, ◌++◌, filter, if◌then◌else◌, has_some, same_text, ◌==◌, eq_iff,
}
use mathlib.Core.Path.{subst}
use snapdragon.Prelude.Texts.{text_before}
use snapdragon.Prelude.Maps.{Map, get, set, delete, keys, get-set, get-delete}
use snapdragon.Prelude.Sorting.{sort}

-- The keys of a `Set`: a key that is there is not put in again.
abbrev pub add_key : String → List String → List String
add_key id ids = if has_some (λ k. k == id) ids then ids else ids ++ id ∷ []

abbrev pub add_keys : List String → List String → List String
add_keys [] ids = ids
add_keys (id ∷ more) ids = add_keys more (add_key id ids)

abbrev pub differs : Map String → Map String → String → Bool
differs a b id = not (same_text (get id a) (get id b))

-- `disjointTargets`, of the components of two candidates
unfoldable pub disjoint_targets : Map String → Map String → List String
unfolding get
disjoint_targets a b =
    sort text_before (filter (differs a b) (add_keys (keys b) (add_keys (keys a) [])))

-- Where a component comes from: the first parent or the second.
pub data Source : Type 0 where
  from_a from_b : Source

pub record MergeProposal : Type 0 where
  pub components : Map String
  pub merged_targets : List String
  pub source : Map Source

abbrev pub put_component : String → Option String → Map String → Map String
put_component id none components = delete id components
put_component id (some value) components = set id value components

-- The loop of `buildMergeChild`; `coins` says of each call of the generator whether it is below 0.5.
unfoldable pub merge_from :
    (ℕ → Bool)
    → ℕ
    → Map String
    → Map String
    → List String
    → Map String
    → Map Source
    → Map String × Map Source
unfolding get set delete
merge_from coins n a b [] components source = (components, source)
merge_from coins n a b (id ∷ ids) components source =
    merge_from coins (n + 1) a b ids
      (put_component id (get id (if coins n then a else b)) components)
      (set id (if coins n then from_a else from_b) source)

unfoldable pub build_merge_child : (ℕ → Bool) → Map String → Map String → Option MergeProposal
unfolding disjoint_targets merge_from
build_merge_child coins a b = elim (disjoint_targets a b) [
  | [] ↦ none
  | id ∷ ids ↦
      let (components, source) = merge_from coins 0 a b (id ∷ ids) a [] in
      some (record { components = components; merged_targets = id ∷ ids; source = source })
]

get-put_component :
    (id k : String) (o : Option String) (components : Map String)
    → get k (put_component id o components) ≡ (if id == k then o else get k components)
get-put_component id k none components = get-delete id k components
get-put_component id k (some value) components = get-set id k value components

-- The component of the parent that a source names; without a source it is the first parent's.
abbrev pub of_source : Map String → Map String → String → Option Source → Option String
of_source a b k none = get k a
of_source a b k (some from_a) = get k a
of_source a b k (some from_b) = get k b

drawn_component :
    (a b : Map String) (id k : String) (coin : Bool)
    → id ≡ k
    → get id (if coin then a else b) ≡ of_source a b k (some (if coin then from_a else from_b))
drawn_component a b id k true e = ap (λ i. get i a) e
drawn_component a b id k false e = ap (λ i. get i b) e

merge_from-source :
    (coins : ℕ → Bool) (n : ℕ) (a b : Map String) (ids : List String) (components : Map String)
    (source : Map Source) (k : String)
    → get k components ≡ of_source a b k (get k source)
    → get k (merge_from coins n a b ids components source).0
      ≡ of_source a b k (get k (merge_from coins n a b ids components source).1)
unfolding merge_from
merge_from-source coins n a b [] components source k h = h
merge_from-source coins n a b (id ∷ ids) components source k h =
    merge_from-source coins (n + 1) a b ids _ _ k (
      get-put_component id k (get id (if coins n then a else b)) components
      ∙ (drawn (coins n)
          ∙ ap (of_source a b k) (sym (get-set id k (if coins n then from_a else from_b) source))))
  where
    drawn :
        (coin : Bool)
        → (if id == k then get id (if coin then a else b) else get k components)
          ≡ of_source a b k
              (if id == k then some (if coin then from_a else from_b) else get k source)
    drawn coin = elim (Bool-cases (id == k)) [
      | inl e ↦ rw e (drawn_component a b id k coin ((eq_iff id k).0 e))
      | inr e ↦ rw e h
    ]

-- Each component of the child of a merge is that of the parent which the proposal names as its source,
-- and that of the first parent where no source is named.
pub build_merge_child-source :
    (coins : ℕ → Bool) (a b : Map String) (p : MergeProposal) (k : String)
    → build_merge_child coins a b ≡ some p
    → get k p.components ≡ of_source a b k (get k p.source)
unfolding build_merge_child get
build_merge_child-source coins a b p k e = go (disjoint_targets a b) refl
  where
    go :
        (ids : List String)
        → disjoint_targets a b ≡ ids
        → get k p.components ≡ of_source a b k (get k p.source)
    go [] f = let nothing : none ≡ some p = rw (build_merge_child, f) at e in cc
    go (id ∷ ids) f =
        let merged = merge_from coins 0 a b (id ∷ ids) a [] in
        let child : MergeProposal = record {
          components = merged.0;
          merged_targets = id ∷ ids;
          source = merged.1;
        } in
        let here : some child ≡ some p = rw (build_merge_child, f) at e in
        let same : child ≡ p = cc in
        subst (λ q. get k q.components ≡ of_source a b k (get k q.source)) same
          (merge_from-source coins 0 a b (id ∷ ids) a [] k refl)
