-- ===== src/Gateway/JobHelpers/Choice.antt =====
-- Which job a worker is given.
use snapdragon.Prelude.{
  ◌+◌, ◌≤◌, String, ◌≡◌, refl, ◌↔◌, true, false, none, some, List, [], ◌∷◌, arith, eq_iff, filter,
  In, In-All, All, All-imp, All-In, All-filter, All-filter_keep, filter-All, inl, inr, ◌≢◌,
  Bool-cases,
}
use snapdragon.Prelude.Int.{ℤ, pos_part, neg_part}
use snapdragon.Prelude.Sorting.{IsOrder, first-sort, first-sort-none, sort}
use snapdragon.Gateway.Types.{JobStatus, JobState, pending, same_state}
use snapdragon.Gateway.JobHelpers.{is_served_before, is_candidate, next_pending_job}

is_served_before-IsOrder : IsOrder is_served_before
is_served_before-IsOrder = record {
  asym = λ a b h. ground arith;
  trans = λ a b c h k. ground arith;
}

abbrev pub ◌≤ℤ◌ : ℤ → ℤ → Type 0
◌≤ℤ◌ a b = pos_part a + neg_part b ≤ pos_part b + neg_part a

-- `job` has at least the priority of `other`, and is not the younger one if they have the same.
abbrev pub Precedes : JobStatus → JobStatus → Type 0
Precedes job other =
    ◌≤ℤ◌ other.spec.priority job.spec.priority
    × (other.spec.priority ≡ job.spec.priority → job.created_at_ms ≤ other.created_at_ms)

Precedes-of_not_before :
    (job other : JobStatus) → is_served_before other job ≡ false → Precedes job other
Precedes-of_not_before job other h = (ground arith, λ e. ground arith)

same_state_sound : (state : JobState) → same_state state pending ≡ true → state ≡ pending
same_state_sound state h = ground arith

-- The job that the queue hands out is one of the pending jobs of that queue, and it precedes each
-- of them: none has a higher priority, and none of the same priority is older.
pub next_pending_job-Precedes :
    (jobs : List JobStatus) (queue : String) (job : JobStatus)
    → next_pending_job jobs queue ≡ some job
    → In job jobs
      × (job.state ≡ pending)
      × (job.spec.queue ≡ queue)
      × All (λ other. other.state ≡ pending → other.spec.queue ≡ queue → Precedes job other) jobs
unfolding next_pending_job
next_pending_job-Precedes jobs queue job e =
    let (member, best) = first-sort is_served_before is_served_before-IsOrder _ job e in
    let passed : is_candidate queue job ≡ true =
      In-All _ _ job (All-filter_keep (is_candidate queue) jobs) member in
    (
      In-All (λ a. In a jobs) _ job
          (All-filter (λ a. In a jobs) (is_candidate queue) jobs (All-In jobs)) member,
      ground arith,
      ground (arith, eq_iff job.spec.queue queue),
      All-imp _ _
          (λ other h p q.
            Precedes-of_not_before job other (h (ground (arith, eq_iff other.spec.queue queue))))
          jobs (filter-All (λ y. is_served_before y job ≡ false) (is_candidate queue) jobs best),
    )

not_candidate :
    (queue : String) (job : JobStatus)
    → is_candidate queue job ≡ true
    → (job.state ≡ pending → job.spec.queue ≢ queue)
    → ⊥
not_candidate queue job h k = ground (arith, eq_iff job.spec.queue queue)

nothing_kept :
    (queue : String) (jobs : List JobStatus)
    → filter (is_candidate queue) jobs ≡ []
    → All (λ job. job.state ≡ pending → job.spec.queue ≢ queue) jobs
nothing_kept queue [] e = tt
nothing_kept queue (job ∷ jobs) e = elim (Bool-cases (is_candidate queue job)) [
  | inl c ↦ let kept : job ∷ filter (is_candidate queue) jobs ≡ [] = rw c at e in cc kept
  | inr c ↦
      let rest : filter (is_candidate queue) jobs ≡ [] = rw c at e in
      (λ p q. ground (arith, eq_iff job.spec.queue queue), nothing_kept queue jobs rest)
]

nothing_to_keep :
    (queue : String) (jobs : List JobStatus)
    → All (λ job. job.state ≡ pending → job.spec.queue ≢ queue) jobs
    → filter (is_candidate queue) jobs ≡ []
nothing_to_keep queue [] h = refl
nothing_to_keep queue (job ∷ jobs) (p, h) = elim (Bool-cases (is_candidate queue job)) [
  | inl c ↦ absurd (not_candidate queue job c p)
  | inr c ↦ rw c (nothing_to_keep queue jobs h)
]

-- The queue hands out nothing exactly when no job of the queue is pending.
pub next_pending_job-eq-none_iff :
    (jobs : List JobStatus) (queue : String)
    → (next_pending_job jobs queue ≡ none)
      ↔ All (λ job. job.state ≡ pending → job.spec.queue ≢ queue) jobs
unfolding next_pending_job sort
next_pending_job-eq-none_iff jobs queue = (
  λ e. nothing_kept queue jobs (first-sort-none is_served_before is_served_before-IsOrder _ e),
  λ h. rw (nothing_to_keep queue jobs h),
)
