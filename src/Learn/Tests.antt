-- ===== src/Learn/Tests.antt =====
-- Runs of the search, and the theorems at concrete inputs, with natural numbers for scores.
use snapdragon.Prelude.{
  ℕ, ◌+◌, ◌-◌, ◌*◌, ◌/◌, ◌≡◌, refl, String, Bool, true, false, ◌↔◌, none, some, List, [], ◌∷◌, ◌++◌,
  ltb, filter, arith, ◌==◌,
}
use snapdragon.Prelude.Maps.{Map, get}
use snapdragon.Prelude.Sorting.{sort}
use snapdragon.Learn.Doubles.{Double, IsOrdered}
use snapdragon.Learn.Candidates.{Candidate}
use snapdragon.Learn.Selection.{pareto_front, select_parent}
use snapdragon.Learn.Front.{
  Undominated, scored, cycle, pareto_front-Undominated, pareto_front-cycle,
}
use snapdragon.Learn.Memory.{Datum, MemoryState, record_data, state_of}
use snapdragon.Learn.Remembering.{Recalls, record_data-Recalls}
use snapdragon.Learn.Merge.{
  build_merge_child, MergeProposal, from_b, of_source, build_merge_child-source,
}
use snapdragon.Learn.Loop.{run_loop}

abbrev natural : Double ℕ
natural = record {
  nought = 0;
  add = λ a b. a + b;
  sub = λ a b. a - b;
  mul = λ a b. a * b;
  div = λ a b. a / b;
  lt = ltb;
  of_nat = λ n. n;
  floor = λ n. n;
}

natural-IsOrdered : IsOrdered natural
natural-IsOrdered = record { asym = λ a b e. ground arith; trans = λ a b c e f. ground arith }

abbrev two : List (Candidate ℕ)
two = scored "x" "1" 5 "2" 3 ∷ scored "y" "1" 4 "2" 3 ∷ []

front_of_two : pareto_front natural two ≡ scored "x" "1" 5 "2" 3 ∷ []
unfolding pareto_front
front_of_two = refl

pareto_front-Undominated_example :
    (test : Candidate ℕ → Bool) × (pareto_front natural two ≡ filter test two)
    × ((c : Candidate ℕ) → (test c ≡ true) ↔ Undominated natural two c)
pareto_front-Undominated_example =
    pareto_front-Undominated natural two natural-IsOrdered
      (((refl, tt), (tt, tt)), (((refl, tt), (tt, tt)), tt))

pareto_front-cycle_example :
    (pareto_front natural (cycle 1 2) ≡ [])
    × (select_parent natural (pareto_front natural (cycle 1 2)) none 0 ≡ none)
pareto_front-cycle_example = pareto_front-cycle natural 1 2 none 0 refl refl

abbrev seen_score : ℕ → Datum ℕ String
seen_score n = record { score = n; evidence = "trace" }

abbrev no_memory : Map (MemoryState ℕ String)
no_memory = []

abbrev batch : List (Datum ℕ String)
batch = seen_score 3 ∷ seen_score 7 ∷ seen_score 5 ∷ []

abbrev remembered : Map (MemoryState ℕ String)
remembered = record_data natural 2 20 "prompt" batch no_memory

best_two : (state_of natural "prompt" remembered).best ≡ seen_score 7 ∷ seen_score 5 ∷ []
unfolding record_data get sort
best_two = refl

nothing_recalled : Recalls natural 2 20 [] (state_of natural "prompt" no_memory)
unfolding get sort
nothing_recalled = record { best = refl; worst = refl; observations = refl; recent = omega arith }

record_data-Recalls_example :
    Recalls natural 2 20
      ([] ++ batch)
      (state_of natural "prompt" (record_data natural 2 20 "prompt" batch no_memory))
    × ((other : String)
        → ("prompt" == other) ≡ false
        → get other (record_data natural 2 20 "prompt" batch no_memory) ≡ get other no_memory)
record_data-Recalls_example =
    record_data-Recalls natural natural-IsOrdered 2 20 "prompt" batch [] no_memory nothing_recalled

abbrev first_parent : Map String
first_parent = ("intro", "a") ∷ ("rules", "b") ∷ []

abbrev second_parent : Map String
second_parent = ("intro", "c") ∷ ("rules", "b") ∷ []

abbrev tails : ℕ → Bool
tails n = false

abbrev child : MergeProposal
child = record {
  components = ("intro", "c") ∷ ("rules", "b") ∷ [];
  merged_targets = "intro" ∷ [];
  source = ("intro", from_b) ∷ [];
}

build_merge_child-source_example :
    get "intro" child.components
    ≡ of_source first_parent second_parent "intro" (get "intro" child.source)
unfolding build_merge_child sort
build_merge_child-source_example =
    build_merge_child-source tails first_parent second_parent child "intro" refl

-- Iterations that accept nothing.
abbrev rejects : ℕ → ℕ → Bool × ℕ
rejects i s = (false, s + i)

stops_when_stale : (run_loop (λ s. false) rejects (some 3) 10 0).iterations ≡ 3
unfolding run_loop
stops_when_stale = refl

abbrev with_mean : ℕ → Candidate ℕ
with_mean n = record (scored "x" "1" n "2" n) { mean_score = some n }
