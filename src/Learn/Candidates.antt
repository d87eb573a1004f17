-- ===== src/Learn/Candidates.antt =====
-- packages/learn/src/gepa-types.ts and gepa-rng.ts: the candidates of a search, and means.
use snapdragon.Prelude.{ℕ, String, Option, List, [], ◌∷◌, length, if◌then◌else◌}
use snapdragon.Prelude.Maps.{Map}
use snapdragon.Learn.Doubles.{Double}

-- `mean_score` is NaN, and `none` here, until the candidate is evaluated.
pub record Candidate (D : Type 0) : Type 0 where
  pub id : String
  pub components : Map String
  pub scores : List D
  pub scores_by_task : Map D
  pub mean_score : Option D
  pub generation : ℕ
  pub parents : Option (List String)
  pub edited_target : Option String

module _ {D : Type 0} (double : Double D) where
  abbrev pub sum_from : D → List D → D
  sum_from acc [] = acc
  sum_from acc (value ∷ values) = sum_from (double.add acc value) values

  unfoldable pub safe_mean : List D → D
  safe_mean [] = double.nought
  safe_mean (value ∷ values) =
      double.div (sum_from double.nought (value ∷ values)) (double.of_nat (length (value ∷ values)))

  unfoldable pub clamp_01 : D → D
  clamp_01 value =
      let one = double.of_nat 1 in
      if double.lt value double.nought
      then double.nought
      else if double.lt one value
      then one
      else value
