-- ===== src/Agent/Tails.antt =====
-- The sizes of the fresh tail that are tried (packages/agent/src/request-context-budget.ts).
use snapdragon.Prelude.{
  ℕ, zero, suc, ◌/◌, ◌≤◌, ◌<◌, ◌≡◌, refl, sym, ap, ◌∙◌, false, Bool-cases, inl, inr, Option, some,
  List, [], ◌∷◌, ◌++◌, All, All-imp, All-both, ltb, eqb, has_some, last, arith,
}
use mathlib.Core.Path.{subst}
use snapdragon.Agent.Budget.{
  at_least_one, halved, halvings, distinct_from, initial_tail_count, tail_candidates,
}

-- Each number is below the one before it, and none is 0.
abbrev pub IsFalling : List ℕ → Type 0
IsFalling [] = Unit
IsFalling (n ∷ ns) = (0 < n) × All (λ m. m < n) ns × IsFalling ns

halvings-IsFalling :
    (rounds current : ℕ)
    → IsFalling (halvings rounds current ++ 1 ∷ [])
      × All (λ m. m ≤ at_least_one current) (halvings rounds current ++ 1 ∷ [])
unfolding halvings
halvings-IsFalling zero current = ((omega arith, tt, tt), (ground arith, tt))
halvings-IsFalling (suc rounds) current = elim (Bool-cases (ltb 1 current)) [
  | inl e ↦
      let (falling, below) = halvings-IsFalling rounds (at_least_one (current / 2)) in
      let low : at_least_one (at_least_one (current / 2)) < current = ground arith in
      let here : current ≤ at_least_one current = ground arith in
      rw e (
        (ground arith, All-imp _ _ (λ m p. omega (arith, p, low)) _ below, falling),
        (here, All-imp _ _ (λ m p. omega (arith, p, low, here)) _ below),
      )
  | inr e ↦ rw e ((omega arith, tt, tt), (ground arith, tt))
]

-- Numbers that fall are distinct.
distinct_from-same :
    (seen ns : List ℕ)
    → IsFalling ns
    → All (λ n. has_some (λ m. eqb m n) seen ≡ false) ns
    → distinct_from seen ns ≡ ns
distinct_from-same seen [] h k = refl
distinct_from-same seen (n ∷ ns) (p, q, h) (e, k) = rw e (
    ap (λ ms. n ∷ ms)
      (distinct_from-same (n ∷ seen) ns h (
        All-imp _ _
          (λ m both.
            let (low, unseen) = both in
            let miss : eqb n m ≡ false = ground (arith, low) in rw miss unseen)
          ns (All-both _ _ ns q k))))

none_seen : (ns : List ℕ) → All (λ n. has_some (λ m. eqb m n) [] ≡ false) ns
none_seen [] = tt
none_seen (n ∷ ns) = (refl, none_seen ns)

at_least_one-le : (n : ℕ) → at_least_one (at_least_one n) ≤ at_least_one n
at_least_one-le n = ground arith

-- More rounds than the number to halve change nothing.
pub halvings-enough :
    (rounds current : ℕ)
    → current ≤ rounds
    → halvings (suc rounds) current ≡ halvings rounds current
unfolding halvings
halvings-enough zero current h =
    let stop : ltb 1 current ≡ false = ground (arith, h) in rw (halvings, stop) refl
halvings-enough (suc rounds) current h = elim (Bool-cases (ltb 1 current)) [
  | inl e ↦
      let low : at_least_one (current / 2) ≤ rounds = ground (arith, h) in
      rw (halvings, e)
        (ap (λ ns. current ∷ ns) (halvings-enough rounds (at_least_one (current / 2)) low))
  | inr e ↦ rw (halvings, e) refl
]

last-append : (ns : List ℕ) (n : ℕ) → last (ns ++ n ∷ []) ≡ some n
last-append [] n = refl
last-append (m ∷ []) n = refl
last-append (m ∷ k ∷ ns) n = last-append (k ∷ ns) n

-- The sizes that are tried fall, from the initial one halved by the pressure at most, to 1: so there are
-- only so many attempts, and the last leaves the smallest tail.
pub tail_candidates-IsFalling :
    (fresh_tail_count : Option ℕ) (pressure : ℕ)
    → IsFalling (tail_candidates fresh_tail_count pressure)
      × (last (tail_candidates fresh_tail_count pressure) ≡ some 1)
      × All
          (λ n. n ≤ at_least_one (halved (initial_tail_count fresh_tail_count) pressure))
          (tail_candidates fresh_tail_count pressure)
unfolding tail_candidates
tail_candidates-IsFalling fresh_tail_count pressure =
    let start = at_least_one (halved (initial_tail_count fresh_tail_count) pressure) in
    let (falling, below) = halvings-IsFalling start start in
    let same : tail_candidates fresh_tail_count pressure ≡ halvings start start ++ 1 ∷ [] =
      distinct_from-same [] (halvings start start ++ 1 ∷ []) falling (none_seen _) in
    let least : at_least_one start ≤ start =
      at_least_one-le (halved (initial_tail_count fresh_tail_count) pressure) in
    (
      subst IsFalling (sym same) falling,
      ap last same ∙ last-append (halvings start start) 1,
      subst (All (λ n. n ≤ start)) (sym same)
          (All-imp _ _ (λ m p. omega (arith, p, least)) _ below),
    )
