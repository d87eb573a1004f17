-- ===== src/Learn/Picking.antt =====
-- The choice of a parent (packages/learn/src/gepa-selection.ts).
use snapdragon.Prelude.{
  ℕ, zero, suc, ◌<◌, ◌≡◌, refl, ◌||◌, Bool-cases, Option, some, Option-cases, or_else, inl, inr,
  List, [], ◌∷◌, In, last, length, get_elem?, arith,
}
use snapdragon.Learn.Doubles.{Double}
use snapdragon.Learn.Candidates.{Candidate, sum_from, clamp_01}
use snapdragon.Learn.Selection.{pick_from, weighted_pick, compute_weights, select_parent}

module _ {A : Type 0} where
  last-In : (x : A) (xs : List A) → (y : A) × (last (x ∷ xs) ≡ some y) × In y (x ∷ xs)
  last-In x [] = (x, refl, inl refl)
  last-In x (y ∷ xs) = let (z, e, m) = last-In y xs in (z, e, inr m)

  get_elem?-In :
      (xs : List A) (i : ℕ) → i < length xs → (y : A) × (get_elem? xs i ≡ some y) × In y xs
  get_elem?-In [] i h = absurd (omega arith)
  get_elem?-In (x ∷ xs) zero h = (x, refl, inl refl)
  get_elem?-In (x ∷ xs) (suc i) h =
      let (y, e, m) = get_elem?-In xs i (omega (arith, h)) in (y, e, inr m)

module _ {D : Type 0} (double : Double D) {A : Type 0} where
  pick_from-In :
      (cursor : D) (items : List A) (weights : List D) (y : A)
      → pick_from double cursor items weights ≡ some y
      → In y items
  unfolding pick_from
  pick_from-In cursor [] weights y e = cc
  pick_from-In cursor (item ∷ items) [] y e = cc
  pick_from-In cursor (item ∷ items) (weight ∷ weights) y e =
      elim (Bool-cases (double.lt double.nought (double.sub cursor weight))) [
        | inl f ↦
            inr (pick_from-In (double.sub cursor weight) items weights y (rw (pick_from, f) at e))
        | inr f ↦ let here : some item ≡ some y = rw (pick_from, f) at e in inl cc
      ]

  weighted_pick-In :
      (item : A) (items : List A) (weights : List D) (roll : D)
      → double.floor (double.mul roll (double.of_nat (length (item ∷ items))))
        < length (item ∷ items)
      → (y : A) × (weighted_pick double (item ∷ items) weights roll ≡ some y) × In y (item ∷ items)
  unfolding weighted_pick
  weighted_pick-In item items weights roll h =
      let total = sum_from double double.nought weights in
      elim (Bool-cases (double.lt total double.nought || double.lt double.nought total)) [
        | inr e ↦ let (y, f, m) = get_elem?-In (item ∷ items) _ h in (y, rw (weighted_pick, e) f, m)
        | inl e ↦
            elim (Option-cases (pick_from double (double.mul roll total) (item ∷ items) weights)) [
              | inl f ↦ let (y, g, m) = last-In item items in (y, rw (weighted_pick, e, f) g, m)
              | inr (y, f) ↦
                  (y, rw (weighted_pick, e, f) refl, pick_from-In _ (item ∷ items) weights y f)
            ]
      ]

-- Of a front that is not empty a parent is chosen, and it is one of the front, whatever the weights
-- round to, if rounding a roll of the generator to an index stays below the length.
pub select_parent-In :
    {D : Type 0} (double : Double D) (c : Candidate D) (front : List (Candidate D))
    (exploration : Option D) (roll : D)
    → double.floor (double.mul roll (double.of_nat (length (c ∷ front)))) < length (c ∷ front)
    → (parent : Candidate D) × (select_parent double (c ∷ front) exploration roll ≡ some parent)
      × In parent (c ∷ front)
unfolding select_parent
select_parent-In double c [] exploration roll h = (c, refl, inl refl)
select_parent-In double c (d ∷ front) exploration roll h =
    let weight =
      clamp_01 double (or_else exploration (double.div (double.of_nat 1) (double.of_nat 5))) in
    weighted_pick-In double c (d ∷ front) (compute_weights double (c ∷ d ∷ front) weight) roll h
