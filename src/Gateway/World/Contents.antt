-- ===== src/Gateway/World/Contents.antt =====
-- What a snapshot of the world holds of the stores.
use mathlib.Core.Path.{subst}
use snapdragon.Prelude.{
  ℕ, String, ◌≡◌, ◌↔◌, refl, sym, ap, Bool, true, false, Option, none, some, List, [], ◌∷◌, ◌==◌,
  eq_refl, or_else, Bool-cases, inl, inr, map, All, All-imp, All-filter, In,
}
use snapdragon.Prelude.Maps.{get, keys}
use snapdragon.Prelude.Texts.{is_empty, text_before}
use snapdragon.Prelude.Sorting.{All-sort}
use snapdragon.Gateway.Types.{JobStatus}
use snapdragon.Gateway.Jobs.{list_jobs}
use snapdragon.Gateway.Logs.{tail}
use snapdragon.Gateway.Tables.{TableStore, TableState, names, snapshot}
use snapdragon.Gateway.Client.{Client}
use snapdragon.Gateway.Filters.{WorldOptions, filter_logs, job_state_text}
use snapdragon.Gateway.Filters.Selected.{Fits, filter_jobs-Fits, filter_logs-tail}
use snapdragon.Gateway.World.{
  build_world, status, section_set, has_section, table_names, table_snapshots,
}

-- A table has the name.
abbrev IsTable : TableStore → String → Type 0
IsTable s name = (table : TableState) × (get name s ≡ some table)

IsTable-cons :
    (j : String) (t : TableState) (s : TableStore) (name : String)
    → IsTable s name
    → IsTable ((j, t) ∷ s) name
unfolding get
IsTable-cons j t s name (table, e) = elim (Bool-cases (j == name)) [
  | inl same ↦ (t, rw same refl)
  | inr other ↦ (table, rw other e)
]

keys-IsTable : (s : TableStore) → All (IsTable s) (keys s)
unfolding get
keys-IsTable [] = tt
keys-IsTable ((j, t) ∷ s) =
    ((t, rw (eq_refl j) refl), All-imp _ _ (λ name h. IsTable-cons j t s name h) _ (keys-IsTable s))

table_names-IsTable :
    (s : TableStore) (requested : Option (List String))
    → All (IsTable s) (table_names (names s) requested)
unfolding table_names names
table_names-IsTable s none = All-sort text_before (IsTable s) (keys s) (keys-IsTable s)
table_names-IsTable s (some []) = All-sort text_before (IsTable s) (keys s) (keys-IsTable s)
table_names-IsTable s (some (x ∷ requested)) =
    All-filter (IsTable s) _ _ (All-sort text_before (IsTable s) (keys s) (keys-IsTable s))

table_snapshots-all_there :
    (s : TableStore) (xs : List String)
    → All (IsTable s) xs
    → map (λ t. t.name) (table_snapshots s xs) ≡ xs
unfolding table_snapshots snapshot
table_snapshots-all_there s [] h = refl
table_snapshots-all_there s (x ∷ xs) ((table, e), h) =
    rw (e, snapshot, map) (ap (◌∷◌ x) (table_snapshots-all_there s xs h))

-- Where the tables are asked for, the snapshot has one for each requested name that there is, in the
-- order of the names: none is missing.
pub build_world-tables :
    (before : String → String → Bool) (options : WorldOptions) (now : ℕ) (c : Client)
    → has_section (section_set options.sections) "tables" ≡ true
    → map (λ t. t.name) (build_world before options now c).0.tables
      ≡ table_names (names c.tables) options.tables
unfolding build_world status
build_world-tables before options now c h =
    rw h (table_snapshots-all_there c.tables _ (table_names-IsTable c.tables options.tables))

-- Where the jobs are asked for, a job is in the snapshot exactly if it is in the store and has the id,
-- the queue, the kind and the state that the options ask for.
pub build_world-jobs :
    (before : String → String → Bool) (options : WorldOptions) (now : ℕ) (c : Client)
    (job : JobStatus)
    → has_section (section_set options.sections) "jobs" ≡ true
    → In job (build_world before options now c).0.jobs ↔ (
        In job (list_jobs c.jobs)
        × Fits options.target (some job.id)
        × Fits options.queue (some job.spec.queue)
        × Fits options.job_kind (some job.spec.kind)
        × Fits options.job_state (some (job_state_text job.state)))
unfolding build_world
build_world-jobs before options now c job h = rw h (filter_jobs-Fits (list_jobs c.jobs) options job)

-- Where the log is asked for and the target is not the empty text, the log of the snapshot is the
-- `tail` about the target, of `logLimit` records or 50.
pub build_world-logs :
    (before : String → String → Bool) (options : WorldOptions) (now : ℕ) (c : Client)
    (target : String)
    → has_section (section_set options.sections) "logs" ≡ true
    → is_empty target ≡ false
    → options.target ≡ some target
    → (build_world before options now c).0.logs
      ≡ tail (some target) (some (or_else options.log_limit 50)) c.logs
unfolding build_world
build_world-logs before options now c target h e same =
    let limit = or_else options.log_limit 50 in
    rw h (
      subst
        (λ o.
          filter_logs (tail o (some limit) c.logs) options ≡ tail (some target) (some limit) c.logs)
        (sym same) (filter_logs-tail target options c.logs e same))
