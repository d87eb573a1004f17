-- ===== src/Learn/Remembering.antt =====
-- What the memory of a target holds after any batches (packages/learn/src/gepa-memory.ts).
use snapdragon.Prelude.{
  ℕ, ◌+◌, ◌≤◌, ◌≡◌, refl, sym, ap, ◌∙◌, String, Bool, false, Bool-cases, map, or_else, none, some,
  inl, inr, List, [], ◌∷◌, ◌++◌, ltb, if◌then◌else◌, length, length-append, length-drop, take,
  append_assoc, append_nil, arith, ◌==◌,
}
use mathlib.Core.Path.{subst}
use snapdragon.Prelude.Maps.{Map, get, set, get-set, get-set_self, keys}
use snapdragon.Prelude.Sorting.{sort, IsOrder}
use snapdragon.Prelude.Top.{take-sort}
use snapdragon.Learn.Doubles.{Double, IsOrdered}
use snapdragon.Learn.Candidates.{safe_mean}
use snapdragon.Learn.Memory.{
  Datum, MemoryState, insert_into, is_better, is_worse, empty_state, state_of, insert_all,
  push_mean, observed, record_data, summarize, targets,
}

-- The memory has the best and the worst of what was seen, each in its order, and the number of it all.
pub record Recalls {D E : Type 0} (double : Double D) (top_k recent_limit : ℕ)
    (seen : List (Datum D E)) (entry : MemoryState D E) : Type 0 where
  pub best : entry.best ≡ take top_k (sort (is_better double) seen)
  pub worst : entry.worst ≡ take top_k (sort (is_worse double) seen)
  pub observations : entry.observations ≡ length seen
  pub recent : length entry.recent_means ≤ recent_limit

push_mean-le :
    {D : Type 0} (recent_limit : ℕ) (mean : D) (means : List D)
    → length means ≤ recent_limit
    → length (push_mean recent_limit mean means) ≤ recent_limit
unfolding push_mean
push_mean-le recent_limit mean means h =
    let pushed = means ++ mean ∷ [] in
    let count = length-append means (mean ∷ []) in
    elim (Bool-cases (ltb recent_limit (length pushed))) [
      | inl e ↦ rw e (omega (arith, h, count, length-drop 1 pushed))
      | inr e ↦ rw e (ground arith)
    ]

module _ {D E : Type 0} (double : Double D) (ordered : IsOrdered double) where
  is_worse-IsOrder : IsOrder {A = Datum D E} (is_worse double)
  is_worse-IsOrder = record {
    asym = λ a b. ordered.asym a.score b.score;
    trans = λ a b c. ordered.trans a.score b.score c.score;
  }

  is_better-IsOrder : IsOrder {A = Datum D E} (is_better double)
  is_better-IsOrder = record {
    asym = λ a b. ordered.asym b.score a.score;
    trans = λ a b c e f. ordered.trans c.score b.score a.score f e;
  }

  insert_into-best :
      (top_k : ℕ) (before : Datum D E → Datum D E → Bool) (seen bucket : List (Datum D E))
      (datum : Datum D E)
      → IsOrder before
      → bucket ≡ take top_k (sort before seen)
      → insert_into bucket datum top_k before ≡ take top_k (sort before (seen ++ datum ∷ []))
  unfolding insert_into
  insert_into-best top_k before seen bucket datum order e =
      ap (λ b. take top_k (sort before (b ++ datum ∷ []))) e
      ∙ take-sort before order top_k seen datum

  -- The two lists after more data.
  insert_all-lists :
      (top_k : ℕ) (batch seen : List (Datum D E)) (entry : MemoryState D E)
      → entry.best ≡ take top_k (sort (is_better double) seen)
      → entry.worst ≡ take top_k (sort (is_worse double) seen)
      → ((insert_all double top_k batch entry).best
          ≡ take top_k (sort (is_better double) (seen ++ batch)))
        × ((insert_all double top_k batch entry).worst
            ≡ take top_k (sort (is_worse double) (seen ++ batch)))
        × ((insert_all double top_k batch entry).observations ≡ entry.observations)
        × ((insert_all double top_k batch entry).recent_means ≡ entry.recent_means)
  unfolding insert_all
  insert_all-lists top_k [] seen entry b w = rw (append_nil seen) (b, w, refl, refl)
  insert_all-lists top_k (datum ∷ batch) seen entry b w =
      rw (sym (append_assoc seen (datum ∷ []) batch)) (
        insert_all-lists top_k batch (seen ++ datum ∷ []) _
          (insert_into-best top_k _ seen entry.best datum is_better-IsOrder b)
          (insert_into-best top_k _ seen entry.worst datum is_worse-IsOrder w))

  observed-Recalls :
      (top_k recent_limit : ℕ) (batch seen : List (Datum D E)) (entry : MemoryState D E)
      → Recalls double top_k recent_limit seen entry
      → Recalls double top_k recent_limit
          (seen ++ batch)
          (observed double top_k recent_limit batch entry)
  observed-Recalls top_k recent_limit batch seen entry h =
      let mean = safe_mean double (map (λ d. d.score) batch) in
      let start : MemoryState D E = record entry {
        observations = entry.observations + length batch;
        recent_means = push_mean recent_limit mean entry.recent_means;
      } in
      let (best, worst, count, means) = insert_all-lists top_k batch seen start h.best h.worst in
      let before = h.observations in
      record {
        best = best;
        worst = worst;
        observations = omega (arith, count, before, length-append seen batch);
        recent =
            subst (λ ms. length ms ≤ recent_limit) (sym means)
              (push_mean-le recent_limit mean entry.recent_means h.recent);
      }

  -- Recording a batch for a target that remembers what it saw makes it remember the batch too, and the
  -- other targets remember what they did.
  pub record_data-Recalls :
      (top_k recent_limit : ℕ) (id : String) (batch seen : List (Datum D E))
      (memory : Map (MemoryState D E))
      → Recalls double top_k recent_limit seen (state_of double id memory)
      → Recalls double top_k recent_limit
          (seen ++ batch)
          (state_of double id (record_data double top_k recent_limit id batch memory))
        × ((other : String)
            → (id == other) ≡ false
            → get other (record_data double top_k recent_limit id batch memory) ≡ get other memory)
  unfolding record_data
  record_data-Recalls top_k recent_limit id [] seen memory h =
      rw (append_nil seen) (h, λ other e. refl)
  record_data-Recalls top_k recent_limit id (datum ∷ batch) seen memory h =
      let entry = observed double top_k recent_limit (datum ∷ batch) (state_of double id memory) in
      let here : state_of double id (set id entry memory) ≡ entry =
        ap (λ o. or_else o (empty_state double)) (get-set_self id entry memory) in
      (
        subst (Recalls double top_k recent_limit (seen ++ datum ∷ batch)) (sym here) (
            observed-Recalls top_k recent_limit (datum ∷ batch) seen (state_of double id memory) h),
        λ other e.
            get-set id other entry memory ∙ ap (λ b. if b then some entry else get other memory) e,
      )

keys-set :
    {V : Type 0} (id : String) (v : V) (m : Map V)
    → get id m ≡ none
    → keys (set id v m) ≡ keys m ++ id ∷ []
unfolding get set
keys-set id v [] e = refl
keys-set id v ((j, w) ∷ m) e = elim (Bool-cases (j == id)) [
  | inl f ↦ let here : some w ≡ none = rw f at e in cc
  | inr f ↦
      let later : get id m ≡ none = rw f at e in rw f (ap (λ ks. j ∷ ks) (keys-set id v m later))
]

-- Asking for the summary of a target that is not there puts it among the targets, though nothing was
-- observed of it.
pub summarize-targets :
    {D E : Type 0} (double : Double D) (id : String) (memory : Map (MemoryState D E))
    → get id memory ≡ none
    → (targets (summarize double id memory).1 ≡ targets memory ++ id ∷ [])
      × ((summarize double id memory).0.observations ≡ 0)
unfolding summarize
summarize-targets double id memory e =
    let absent : state_of double id memory ≡ empty_state double =
      ap (λ o. or_else o (empty_state double)) e in
    (rw (summarize, e) (keys-set id _ memory e), ap (λ entry. entry.observations) absent)
