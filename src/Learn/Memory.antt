-- ===== src/Learn/Memory.antt =====
-- packages/learn/src/gepa-memory.ts: what a search remembers of each target.
use snapdragon.Prelude.{
  ℕ, ◌+◌, String, Bool, Option, none, some, or_else, List, [], ◌∷◌, ◌++◌, ltb, if◌then◌else◌,
  length, map, take, drop,
}
use snapdragon.Prelude.Maps.{Map, get, set, keys}
use snapdragon.Prelude.Sorting.{sort}
use snapdragon.Learn.Doubles.{Double}
use snapdragon.Learn.Candidates.{safe_mean}

-- `evidence` stands for the example, the trace and the rubric.
pub record Datum (D E : Type 0) : Type 0 where
  pub score : D
  pub evidence : E

pub record MemoryState (D E : Type 0) : Type 0 where
  pub best : List (Datum D E)
  pub worst : List (Datum D E)
  pub recent_means : List D
  pub observations : ℕ

pub record TargetMemory (D E : Type 0) : Type 0 where
  pub target_id : String
  pub best : List (Datum D E)
  pub worst : List (Datum D E)
  pub recent_means : List D
  pub observations : ℕ

-- `insertSorted`; `before a b` stands for `compare(a, b) < 0`.
unfoldable pub insert_into : {T : Type 0} → List T → T → ℕ → (T → T → Bool) → List T
insert_into bucket item capacity before = take capacity (sort before (bucket ++ item ∷ []))

-- `Math.max(1, n ?? fallback)`
abbrev pub at_least_1 : Option ℕ → ℕ → ℕ
at_least_1 n fallback = if ltb (or_else n fallback) 1 then 1 else or_else n fallback

unfoldable pub push_mean : {D : Type 0} → ℕ → D → List D → List D
push_mean recent_limit mean means =
    let pushed = means ++ mean ∷ [] in
    if ltb recent_limit (length pushed) then drop 1 pushed else pushed

module _ {D E : Type 0} (double : Double D) where
  abbrev pub is_better : Datum D E → Datum D E → Bool
  is_better a b = double.lt b.score a.score

  abbrev pub is_worse : Datum D E → Datum D E → Bool
  is_worse a b = double.lt a.score b.score

  abbrev pub empty_state : MemoryState D E
  empty_state = record { best = []; worst = []; recent_means = []; observations = 0 }

  abbrev pub state_of : String → Map (MemoryState D E) → MemoryState D E
  state_of id memory = or_else (get id memory) empty_state

  -- The loop of `record` over the data.
  unfoldable pub insert_all : ℕ → List (Datum D E) → MemoryState D E → MemoryState D E
  unfolding insert_into
  insert_all top_k [] entry = entry
  insert_all top_k (datum ∷ batch) entry = insert_all top_k batch (record entry {
    best = insert_into entry.best datum top_k is_better;
    worst = insert_into entry.worst datum top_k is_worse;
  })

  abbrev pub observed : ℕ → ℕ → List (Datum D E) → MemoryState D E → MemoryState D E
  observed top_k recent_limit batch entry = insert_all top_k batch (record entry {
    observations = entry.observations + length batch;
    recent_means =
        push_mean recent_limit (safe_mean double (map (λ d. d.score) batch)) entry.recent_means;
  })

  unfoldable pub record_data :
      ℕ → ℕ → String → List (Datum D E) → Map (MemoryState D E) → Map (MemoryState D E)
  unfolding insert_all push_mean safe_mean get set
  record_data top_k recent_limit id [] memory = memory
  record_data top_k recent_limit id (datum ∷ batch) memory =
      set id (observed top_k recent_limit (datum ∷ batch) (state_of id memory)) memory

  -- A target that is not there is put in.
  unfoldable pub summarize :
      String → Map (MemoryState D E) → TargetMemory D E × Map (MemoryState D E)
  unfolding get set
  summarize id memory =
      let entry = state_of id memory in
      (
        record {
          target_id = id;
          best = entry.best;
          worst = entry.worst;
          recent_means = entry.recent_means;
          observations = entry.observations;
        },
        elim (get id memory) [ none ↦ set id entry memory | some _ ↦ memory ],
      )

abbrev pub targets : {D E : Type 0} → Map (MemoryState D E) → List String
targets memory = keys memory
