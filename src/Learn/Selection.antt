-- ===== src/Learn/Selection.antt =====
-- packages/learn/src/gepa-selection.ts: dominance, the Pareto front, and the choice of a parent.
use snapdragon.Prelude.{
  ℕ, ◌+◌, Bool, false, ◌&&◌, ◌||◌, Option, none, some, or_else, or_option, List, [], ◌∷◌, ◌++◌, ltb,
  if◌then◌else◌, filter, has_some, length, map, last, get_elem?,
}
use snapdragon.Prelude.Maps.{Map, get}
use snapdragon.Learn.Doubles.{Double}
use snapdragon.Learn.Candidates.{Candidate, safe_mean, sum_from, clamp_01}

module _ {D : Type 0} (double : Double D) where
  -- The loop of `dominates` over the entries of `a`.
  unfoldable pub dominates_from : Map D → ℕ → Bool → Map D → Bool
  unfolding get
  dominates_from others overlap strictly [] = ltb 0 overlap && strictly
  dominates_from others overlap strictly ((task, av) ∷ entries) = elim (get task others) [
    | none ↦ dominates_from others overlap strictly entries
    | some bv ↦
        let rest = dominates_from others (overlap + 1) (strictly || double.lt bv av) entries in
        if double.lt av bv then false else rest
  ]

  unfoldable pub dominates : Candidate D → Candidate D → Bool
  unfolding dominates_from
  dominates a b = dominates_from b.scores_by_task 0 false a.scores_by_task

  abbrev pub is_scored : Candidate D → Bool
  is_scored c = ltb 0 (length c.scores_by_task)

  -- The candidates that none of the others dominates: the others are those before and after it, since
  -- `!==` tells objects apart.
  unfoldable pub front_from : List (Candidate D) → List (Candidate D) → List (Candidate D)
  unfolding dominates
  front_from before [] = []
  front_from before (c ∷ after) =
      let rest = front_from (before ++ c ∷ []) after in
      if has_some (λ other. dominates other c) (before ++ after) then rest else c ∷ rest

  unfoldable pub pareto_front : List (Candidate D) → List (Candidate D)
  unfolding front_from
  pareto_front candidates = front_from [] (filter is_scored candidates)

  unfoldable pub weight_for : D → D → D → D → D → D
  weight_for mean least span uniform exploration =
      let greedy =
        if double.lt span double.nought || double.lt double.nought span
        then double.div (double.sub mean least) span
        else uniform in
      double.add (double.mul exploration uniform)
        (double.mul (double.sub (double.of_nat 1) exploration) greedy)

  abbrev pub min_from : D → List D → D
  min_from acc [] = acc
  min_from acc (value ∷ values) = min_from (if double.lt value acc then value else acc) values

  abbrev pub max_from : D → List D → D
  max_from acc [] = acc
  max_from acc (value ∷ values) = max_from (if double.lt acc value then value else acc) values

  unfoldable pub compute_weights : List (Candidate D) → D → List D
  unfolding weight_for safe_mean
  compute_weights [] exploration = []
  compute_weights (c ∷ front) exploration =
      let means = map (λ candidate. safe_mean double candidate.scores) (c ∷ front) in
      let first = safe_mean double c.scores in
      let least = min_from first means in
      let span = double.sub (max_from first means) least in
      let uniform = double.div (double.of_nat 1) (double.of_nat (length (c ∷ front))) in
      map (λ mean. weight_for mean least span uniform exploration) means

  -- The loop of `weightedPick`; there is a weight for each item.
  unfoldable pub pick_from : {A : Type 0} → D → List A → List D → Option A
  pick_from cursor [] weights = none
  pick_from cursor (item ∷ items) [] = none
  pick_from cursor (item ∷ items) (weight ∷ weights) =
      let left = double.sub cursor weight in
      let rest = pick_from left items weights in
      if double.lt double.nought left then rest else some item

  unfoldable pub weighted_pick : {A : Type 0} → List A → List D → D → Option A
  unfolding pick_from
  weighted_pick items weights roll =
      let total = sum_from double double.nought weights in
      let weighted = or_option (pick_from (double.mul roll total) items weights) (last items) in
      if double.lt total double.nought || double.lt double.nought total
      then weighted
      else get_elem? items (double.floor (double.mul roll (double.of_nat (length items))))

  -- `selectParent`, with the number that the generator gives; it throws where there is no candidate.
  unfoldable pub select_parent : List (Candidate D) → Option D → D → Option (Candidate D)
  unfolding compute_weights weighted_pick clamp_01
  select_parent [] exploration roll = none
  select_parent (c ∷ []) exploration roll = some c
  select_parent (c ∷ d ∷ front) exploration roll =
      let weight =
        clamp_01 double (or_else exploration (double.div (double.of_nat 1) (double.of_nat 5))) in
      weighted_pick (c ∷ d ∷ front) (compute_weights (c ∷ d ∷ front) weight) roll
