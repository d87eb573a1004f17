-- ===== src/Learn/Loop.antt =====
-- packages/learn/src/gepa.ts and gepa-iterations.ts: the rounds of a search. An iteration evaluates
-- candidates and asks for texts, so it is a parameter, a function of the state.
use snapdragon.Prelude.{
  ℕ, zero, suc, ◌+◌, ◌<◌, ◌≡◌, refl, sym, ◌⊎◌, Bool, true, false, ◌||◌, Bool-cases, inl, inr,
  Option, none, some, List, [], ◌∷◌, All, leb, if◌then◌else◌, In, arith,
}
use mathlib.Core.Path.{subst}
use snapdragon.Learn.Doubles.{Double, IsOrdered}
use snapdragon.Learn.Candidates.{Candidate}

-- `stagnation >= patience`; no patience is infinity.
abbrev pub is_stale : Option ℕ → ℕ → Bool
is_stale none stagnation = false
is_stale (some patience) stagnation = leb patience stagnation

-- What the loop of `runLoop` leaves: the state, the iterations, and the stagnation.
pub record LoopEnd (S : Type 0) : Type 0 where
  pub state : S
  pub iterations : ℕ
  pub stagnation : ℕ

-- `rounds` is what is left of `maxIterations`.
unfoldable pub loop_from :
    {S : Type 0} → (S → Bool) → (ℕ → S → Bool × S) → Option ℕ → ℕ → ℕ → ℕ → S → LoopEnd S
loop_from is_aborted iterate patience zero iteration stagnation s = record {
  state = s;
  iterations = iteration;
  stagnation = stagnation;
}
loop_from is_aborted iterate patience (suc rounds) iteration stagnation s =
    let (accepted, s') = iterate (iteration + 1) s in
    let rest =
      loop_from is_aborted iterate patience rounds (iteration + 1)
        (if accepted then 0 else stagnation + 1) s' in
    if is_aborted s || is_stale patience stagnation
    then record { state = s; iterations = iteration; stagnation = stagnation }
    else rest

unfoldable pub run_loop :
    {S : Type 0} → (S → Bool) → (ℕ → S → Bool × S) → Option ℕ → ℕ → S → LoopEnd S
unfolding loop_from
run_loop is_aborted iterate patience max_iterations s =
    loop_from is_aborted iterate patience max_iterations 0 0 s

-- Why a loop may end.
abbrev pub IsEnd : {S : Type 0} → (S → Bool) → Option ℕ → ℕ → LoopEnd S → Type 0
IsEnd is_aborted patience max_iterations r =
    (r.iterations ≡ max_iterations)
    ⊎ ((r.iterations < max_iterations)
        × ((is_aborted r.state || is_stale patience r.stagnation) ≡ true))

loop_from-IsEnd :
    {S : Type 0} (is_aborted : S → Bool) (iterate : ℕ → S → Bool × S) (patience : Option ℕ)
    (rounds iteration stagnation : ℕ) (s : S)
    → IsEnd is_aborted patience
        (iteration + rounds)
        (loop_from is_aborted iterate patience rounds iteration stagnation s)
unfolding loop_from
loop_from-IsEnd is_aborted iterate patience zero iteration stagnation s = inl (omega arith)
loop_from-IsEnd is_aborted iterate patience (suc rounds) iteration stagnation s =
    elim (Bool-cases (is_aborted s || is_stale patience stagnation)) [
      | inl e ↦ rw (loop_from, e) (inr (omega arith, e))
      | inr e ↦
          let count : iteration + 1 + rounds ≡ iteration + suc rounds = omega arith in
          let (accepted, s') = iterate (iteration + 1) s in
          let stagnation' = if accepted then 0 else stagnation + 1 in
          rw (loop_from, e)
            (subst
              (λ n.
                IsEnd is_aborted patience n
                  (loop_from is_aborted iterate patience rounds (iteration + 1) stagnation' s'))
              count
              (loop_from-IsEnd is_aborted iterate patience rounds (iteration + 1) stagnation' s'))
    ]

-- The loop ends after all of the iterations it is allowed, or before that because it was aborted or no
-- candidate was accepted for as long as the patience is.
pub run_loop-IsEnd :
    {S : Type 0} (is_aborted : S → Bool) (iterate : ℕ → S → Bool × S) (patience : Option ℕ)
    (max_iterations : ℕ) (s : S)
    → IsEnd is_aborted patience max_iterations
        (run_loop is_aborted iterate patience max_iterations s)
unfolding run_loop
run_loop-IsEnd is_aborted iterate patience max_iterations s =
    let count : 0 + max_iterations ≡ max_iterations = omega arith in
    subst
      (λ n.
        IsEnd is_aborted patience n (loop_from is_aborted iterate patience max_iterations 0 0 s))
      count (loop_from-IsEnd is_aborted iterate patience max_iterations 0 0 s)

-- `pickBest`, of a history that has a first candidate; a mean that is NaN is above nothing.
module _ {D : Type 0} (double : Double D) where
  abbrev pub is_above : Option D → Option D → Bool
  is_above none b = false
  is_above (some a) none = false
  is_above (some a) (some b) = double.lt b a

  unfoldable pub pick_best : Candidate D → List (Candidate D) → Candidate D
  pick_best best [] = best
  pick_best best (c ∷ history) =
      pick_best (if is_above c.mean_score best.mean_score then c else best) history

skip_second : {A : Type 0} (x y z : A) (xs : List A) → In x (y ∷ xs) → In x (y ∷ z ∷ xs)
skip_second x y z xs (inl e) = inl e
skip_second x y z xs (inr m) = inr (inr m)

module _ {D : Type 0} (double : Double D) (ordered : IsOrdered double) where
  abbrev NotBelow : Candidate D → Candidate D → Type 0
  NotBelow c best = is_above double c.mean_score best.mean_score ≡ false

  abbrev pub IsBest : List (Candidate D) → Candidate D → Type 0
  IsBest history best = All (λ c. NotBelow c best) history × In best history

  is_above_trans :
      (x y z : Option D) (m : D)
      → y ≡ some m
      → is_above double x y ≡ false
      → is_above double y z ≡ false
      → is_above double x z ≡ false
  is_above_trans none y z m e f g = refl
  is_above_trans (some a) none z m e f g = cc
  is_above_trans (some a) (some b) none m e f g = refl
  is_above_trans (some a) (some b) (some c) m e f g = ordered.trans a b c f g

  is_above_asym : (x y : Option D) → is_above double x y ≡ true → is_above double y x ≡ false
  is_above_asym none y e = cc
  is_above_asym (some a) none e = cc
  is_above_asym (some a) (some b) e = ordered.asym b a e

  is_above_irrefl : (x : Option D) → is_above double x x ≡ false
  is_above_irrefl x = elim (Bool-cases (is_above double x x)) [
    | inl e ↦ is_above_asym x x e
    | inr e ↦ e
  ]

  -- Of candidates with means the best is one that none is above.
  pub pick_best-NotBelow :
      (best : Candidate D) (history : List (Candidate D))
      → All (λ c. (m : D) × (c.mean_score ≡ some m)) (best ∷ history)
      → IsBest (best ∷ history) (pick_best double best history)
  unfolding pick_best
  pick_best-NotBelow best [] h = ((is_above_irrefl best.mean_score, tt), inl refl)
  pick_best-NotBelow best (c ∷ history) ((m, e), ((n, f), h)) =
      elim (Bool-cases (is_above double c.mean_score best.mean_score)) [
        | inl g ↦
            let (below, member) = pick_best-NotBelow c history ((n, f), h) in
            let first =
              is_above_trans best.mean_score c.mean_score (pick_best double c history).mean_score n
                f (is_above_asym _ _ g) below.0 in
            let step : pick_best double best (c ∷ history) ≡ pick_best double c history =
              rw (pick_best, g) refl in
            subst (IsBest (best ∷ c ∷ history)) (sym step) ((first, below), inr member)
        | inr g ↦
            let (below, member) = pick_best-NotBelow best history ((m, e), h) in
            let second =
              is_above_trans c.mean_score best.mean_score (pick_best double best history).mean_score
                m e g below.0 in
            let step : pick_best double best (c ∷ history) ≡ pick_best double best history =
              rw (pick_best, g) refl in
            subst (IsBest (best ∷ c ∷ history)) (sym step)
              ((below.0, (second, below.1)), skip_second _ best c history member)
      ]
