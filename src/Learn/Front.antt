-- ===== src/Learn/Front.antt =====
-- The Pareto front (packages/learn/src/gepa-selection.ts).
use snapdragon.Prelude.{
  ℕ, ◌+◌, ◌≡◌, ◌≢◌, ◌↔◌, refl, length, All-both, filter-All, sym, ap, ◌∙◌, String, Bool, true,
  false, not, ◌&&◌, ◌||◌, Bool-cases, Option, none, some, inl, inr, List, [], ◌∷◌, ◌++◌, All,
  All-filter, All-imp, filter, has_some, ltb, append_assoc, arith,
}
use snapdragon.Prelude.Maps.{Map, get, HasUniqueKeys}
use snapdragon.Learn.Doubles.{Double, IsOrdered}
use snapdragon.Learn.Dominance.{entries-get, Dominates, dominates-Dominates}
use snapdragon.Learn.Candidates.{Candidate}
use snapdragon.Learn.Selection.{
  dominates_from, dominates, is_scored, front_from, pareto_front, select_parent,
}

and_false : (b : Bool) → (b && false) ≡ false
and_false true = refl
and_false false = refl

module _ {D : Type 0} (double : Double D) (ordered : IsOrdered double) where
  irreflexive : (a : D) → double.lt a a ≡ false
  irreflexive a = elim (Bool-cases (double.lt a a)) [ inl e ↦ ordered.asym a a e | inr e ↦ e ]

  never_strict :
      (m : Map D) (n : ℕ) (entries : Map D)
      → All (λ e. get e.0 m ≡ some e.1) entries
      → dominates_from double m n false entries ≡ false
  unfolding dominates_from
  never_strict m n [] h = and_false (ltb 0 n)
  never_strict m n ((k, v) ∷ entries) (e, h) =
      rw (dominates_from, e, irreflexive v) (never_strict m (n + 1) entries h)

  -- No candidate dominates itself.
  dominates-irreflexive :
      (c : Candidate D) → HasUniqueKeys c.scores_by_task → dominates double c c ≡ false
  unfolding dominates
  dominates-irreflexive c h = never_strict c.scores_by_task 0 c.scores_by_task (entries-get _ h)

module _ {D : Type 0} (double : Double D) where
  has_some-none :
      {A : Type 0} (test : A → Bool) (xs : List A)
      → has_some test xs ≡ false
      → All (λ x. test x ≡ false) xs
  has_some-none test [] h = tt
  has_some-none test (x ∷ xs) h = (ground arith, has_some-none test xs (ground arith))

  none-has_some :
      {A : Type 0} (test : A → Bool) (xs : List A)
      → All (λ x. test x ≡ false) xs
      → has_some test xs ≡ false
  none-has_some test [] h = refl
  none-has_some test (x ∷ xs) (e, h) = rw e (none-has_some test xs h)

  abbrev pub is_dominated : List (Candidate D) → Candidate D → Bool
  is_dominated others c = has_some (λ other. dominates double other c) others

  -- Of all candidates, once it is no one's own dominator.
  others-all :
      (before after : List (Candidate D)) (c : Candidate D)
      → dominates double c c ≡ false
      → is_dominated (before ++ after) c ≡ is_dominated (before ++ c ∷ after) c
  others-all [] after c e = rw e refl
  others-all (b ∷ before) after c e =
      ap (λ r. dominates double b c || r) (others-all before after c e)

  front_from-filter :
      (before after : List (Candidate D))
      → All (λ c. dominates double c c ≡ false) after
      → front_from double before after ≡ filter (λ c. not (is_dominated (before ++ after) c)) after
  unfolding front_from
  front_from-filter before [] h = refl
  front_from-filter before (c ∷ after) (e, h) =
      let rest = front_from-filter (before ++ c ∷ []) after h in
      let same : (before ++ c ∷ []) ++ after ≡ before ++ c ∷ after =
        append_assoc before (c ∷ []) after in
      let tail : front_from double (before ++ c ∷ []) after
          ≡ filter (λ d. not (is_dominated (before ++ c ∷ after) d)) after =
        rest ∙ ap (λ all. filter (λ d. not (is_dominated all d)) after) same in
      elim (Bool-cases (is_dominated (before ++ after) c)) [
        | inl f ↦
            let g : is_dominated (before ++ c ∷ after) c ≡ true =
              sym (others-all before after c e) ∙ f in
            rw (front_from, f, g) tail
        | inr f ↦
            let g : is_dominated (before ++ c ∷ after) c ≡ false =
              sym (others-all before after c e) ∙ f in
            rw (front_from, f, g) (ap (λ ds. c ∷ ds) tail)
      ]

filter-twice :
    {A : Type 0} (keep also : A → Bool) (xs : List A)
    → filter also (filter keep xs) ≡ filter (λ x. keep x && also x) xs
filter-twice keep also [] = refl
filter-twice keep also (x ∷ xs) = elim (Bool-cases (keep x)) [
  | inl e ↦ elim (Bool-cases (also x)) [
    | inl f ↦ rw (e, f) (ap (λ rest. x ∷ rest) (filter-twice keep also xs))
    | inr f ↦ rw (e, f) (filter-twice keep also xs)
  ]
  | inr e ↦ rw e (filter-twice keep also xs)
]

-- The Pareto front is the candidates with a score that no candidate with a score dominates, in their
-- order.
pub pareto_front-filter :
    {D : Type 0} (double : Double D) (candidates : List (Candidate D))
    → IsOrdered double
    → All (λ c. HasUniqueKeys c.scores_by_task) candidates
    → pareto_front double candidates
      ≡ filter
          (λ c. not (is_dominated double (filter (is_scored double) candidates) c))
          (filter (is_scored double) candidates)
unfolding pareto_front
pareto_front-filter double candidates ordered h =
    front_from-filter double [] (filter (is_scored double) candidates) (
      All-imp _ _ (λ c k. dominates-irreflexive double ordered c k) _
        (All-filter _ (is_scored double) candidates h))

module _ {D : Type 0} (double : Double D) where
  -- The candidate is scored at a task, and no candidate dominates it.
  abbrev pub Undominated : List (Candidate D) → Candidate D → Type 0
  Undominated candidates c = (c.scores_by_task ≢ []) × All (λ d. ¬ Dominates double d c) candidates

  abbrev stays : List (Candidate D) → Candidate D → Bool
  stays candidates c =
      is_scored double c && not (is_dominated double (filter (is_scored double) candidates) c)

  scored_at : (m : Map D) → m ≢ [] → ltb 0 (length m) ≡ true
  scored_at [] h = absurd (h refl)
  scored_at (e ∷ m) h = ground arith

  not_empty : (k : String) (v : D) (m : Map D) → get k m ≡ some v → m ≢ []
  unfolding get
  not_empty k v [] e f = cc
  not_empty k v (x ∷ m) e f = cc

  scored_not_empty : (m : Map D) → ltb 0 (length m) ≡ true → m ≢ []
  scored_not_empty [] e f = ground arith
  scored_not_empty (x ∷ m) e f = cc

  none_over :
      (candidates : List (Candidate D)) (c : Candidate D)
      → All (λ d. HasUniqueKeys d.scores_by_task) candidates
      → is_dominated double (filter (is_scored double) candidates) c ≡ false
      → All (λ d. ¬ Dominates double d c) candidates
  none_over candidates c h e =
      All-imp _ _
        (λ d both over.
          let (never, (k, av, bv, f, g, above)) = over in
          let is_over = (dominates-Dominates double d c both.0).1 over in
          let kept = scored_at d.scores_by_task (not_empty k av d.scores_by_task f) in
          let free = both.1 kept in cc)
        candidates
        (All-both (λ d. HasUniqueKeys d.scores_by_task)
          (λ d. is_scored double d ≡ true → dominates double d c ≡ false) candidates h
          (filter-All (λ d. dominates double d c ≡ false) (is_scored double) candidates
            (has_some-none double _ _ e)))

  over_none :
      (candidates : List (Candidate D)) (c : Candidate D)
      → All (λ d. HasUniqueKeys d.scores_by_task) candidates
      → All (λ d. ¬ Dominates double d c) candidates
      → is_dominated double (filter (is_scored double) candidates) c ≡ false
  over_none candidates c h free = none-has_some double _ _ (
      All-filter _ (is_scored double) candidates (
        All-imp _ _
          (λ d both. elim (Bool-cases (dominates double d c)) [
            | inl e ↦ absurd (both.1 ((dominates-Dominates double d c both.0).0 e))
            | inr e ↦ e
          ])
          candidates
          (All-both (λ d. HasUniqueKeys d.scores_by_task) (λ d. ¬ Dominates double d c) candidates h
            free)))

  -- With a comparison that is a strict weak order and at most one score of a candidate at each task: the
  -- Pareto front is the candidates, in their order and each as often, that have a score and that no
  -- candidate dominates, which is to be below at no task of both and above at one.
  pub pareto_front-Undominated :
      (candidates : List (Candidate D))
      → IsOrdered double
      → All (λ c. HasUniqueKeys c.scores_by_task) candidates
      → (test : Candidate D → Bool) × (pareto_front double candidates ≡ filter test candidates)
        × ((c : Candidate D) → (test c ≡ true) ↔ Undominated candidates c)
  pareto_front-Undominated candidates ordered h = (
    stays candidates,
    pareto_front-filter double candidates ordered h
        ∙ filter-twice (is_scored double)
            (λ c. not (is_dominated double (filter (is_scored double) candidates) c)) candidates,
    λ c. (
      λ e. (
        scored_not_empty c.scores_by_task (ground (arith, e)),
        none_over candidates c h (ground (arith, e)),
      ),
      λ u.
          let kept = scored_at c.scores_by_task u.0 in
          let free = over_none candidates c h u.1 in rw (kept, free) refl,
    ),
  )

-- A candidate with the scores `a` at one task and `b` at another.
abbrev pub scored : {D : Type 0} → String → String → D → String → D → Candidate D
scored id task a other b = record {
  id = id;
  components = [];
  scores = a ∷ b ∷ [];
  scores_by_task = (task, a) ∷ (other, b) ∷ [];
  mean_score = none;
  generation = 0;
  parents = none;
  edited_target = none;
}

abbrev pub cycle : {D : Type 0} → D → D → List (Candidate D)
cycle low high =
    scored "x" "1" high "2" low ∷ scored "y" "2" high "3" low ∷ scored "z" "3" high "1" low ∷ []

-- Three candidates, each scored at two of three tasks, can dominate one another in a circle. Then the
-- front is empty though all are scored, and the choice of a parent throws.
pub pareto_front-cycle :
    {D : Type 0} (double : Double D) (low high : D) (exploration : Option D) (roll : D)
    → double.lt low high ≡ true
    → double.lt high low ≡ false
    → (pareto_front double (cycle low high) ≡ [])
      × (select_parent double (pareto_front double (cycle low high)) exploration roll ≡ none)
unfolding pareto_front select_parent dominates get front_from
pareto_front-cycle double low high exploration roll less not_less =
    let empty : pareto_front double (cycle low high) ≡ [] = rw (less, not_less) refl in
    (empty, ap (λ front. select_parent double front exploration roll) empty)
