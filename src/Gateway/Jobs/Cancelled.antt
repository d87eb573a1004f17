-- ===== src/Gateway/Jobs/Cancelled.antt =====
-- A cancelled job is never worked on again.
use snapdragon.Prelude.{
  ℕ, String, ◌≡◌, refl, false, Option, none, some, arith, ◌==◌, eq_iff, Bool-cases, Option-cases,
  inl, inr,
}
use snapdragon.Prelude.Json.{Json}
use snapdragon.Prelude.Maps.{get, set, values, get-set}
use snapdragon.Gateway.Types.{JobStatus, JobState, completed, failed, cancelled, same_state}
use snapdragon.Gateway.JobHelpers.{next_pending_job}
use snapdragon.Gateway.Jobs.{
  JobStore, empty, enqueue, cancel, cancel_job, acquire, grant, new_lease, lease_job, finish,
  finish_job, complete, fail, retry, retry_job,
}
use snapdragon.Gateway.Jobs.Lifecycle.{
  Step, enqueues, cancels, acquires, completes, fails, retries, Calls, no_call, then_call,
}
use snapdragon.Gateway.Jobs.Keyed.{IsKeyed, Calls-IsKeyed, new-IsKeyed, pending_found}

pub record IsCancelled (id : String) (s : JobStore) : Type 0 where
  pub job : JobStatus
  pub found : get id s.jobs ≡ some job
  pub is_cancelled : job.state ≡ cancelled

-- The entry at `id` after another is written, or the same one with a job that is cancelled too.
at_set :
    (id k : String) (s t : JobStore) (job : JobStatus)
    → t.jobs ≡ set k job s.jobs
    → ((k ≡ id) → job.state ≡ cancelled)
    → IsCancelled id s
    → IsCancelled id t
at_set id k s t job e same c = elim (Bool-cases (k == id)) [
  | inl h ↦ record {
    job = job;
    found = rw (e, get-set k id job s.jobs, h);
    is_cancelled = same ((eq_iff k id).0 h);
  }
  | inr h ↦ record {
    job = c.job;
    found = rw (e, get-set k id job s.jobs, h) c.found;
    is_cancelled = c.is_cancelled;
  }
]

at_found :
    (id k : String) (s : JobStore) (job : JobStatus)
    → IsCancelled id s
    → get k s.jobs ≡ some job
    → k ≡ id
    → job.state ≡ cancelled
at_found id k s job c found same =
    let p : get id s.jobs ≡ some job = rw (← same) found in cc (p, c.found, c.is_cancelled)

cancel-IsCancelled :
    (id k : String) (now : ℕ) (s : JobStore) → IsCancelled id s → IsCancelled id (cancel k now s).1
cancel-IsCancelled id k now s c = elim (Option-cases (get k s.jobs)) [
  | inl e ↦ unfold cancel in rw (e, cancel) c
  | inr (job, e) ↦
      at_set id k s _ (cancel_job now job) (unfold cancel in rw (e, cancel) refl) (λ _. refl) c
]

finish-IsCancelled :
    (id k : String) (requested : JobState) (outcome : Option Json) (error : Option String) (now : ℕ)
    (s : JobStore)
    → IsCancelled id s
    → IsCancelled id (finish k requested outcome error now s).1
finish-IsCancelled id k requested outcome error now s c = elim (Option-cases (get k s.jobs)) [
  | inl e ↦ unfold finish in rw (e, finish) c
  | inr (job, e) ↦ elim (Bool-cases (same_state job.state cancelled)) [
    | inl h ↦ unfold finish in rw (e, finish, h) c
    | inr h ↦
        at_set id k s _ (finish_job requested outcome error now job)
          (unfold finish in rw (e, finish, h) refl)
          (λ same. absurd (ground (arith, at_found id k s job c e same))) c
  ]
]

retry-IsCancelled :
    (id k : String) (now : ℕ) (s : JobStore) → IsCancelled id s → IsCancelled id (retry k now s).1
retry-IsCancelled id k now s c = elim (Option-cases (get k s.jobs)) [
  | inl e ↦ unfold retry in rw (e, retry) c
  | inr (job, e) ↦ elim (Bool-cases (same_state job.state failed)) [
    | inl h ↦
        at_set id k s _ (retry_job now job) (unfold retry in rw (e, retry, h) refl)
          (λ same. absurd (ground (arith, at_found id k s job c e same))) c
    | inr h ↦ unfold retry in rw (e, retry, h) c
  ]
]

acquire-IsCancelled :
    (id queue worker : String) (lease_ms now : ℕ) (s : JobStore)
    → IsKeyed s
    → IsCancelled id s
    → IsCancelled id (acquire queue worker lease_ms now s).1
acquire-IsCancelled id queue worker lease_ms now s v c =
    elim (Option-cases (next_pending_job (values s.jobs) queue)) [
      | inl e ↦ unfold acquire in rw (e, acquire) c
      | inr (job, e) ↦
          let (found, is_pending) = pending_found s queue job v e in
          at_set id job.id s _ (lease_job (new_lease job worker lease_ms now) now job)
            (unfold acquire grant in rw (e, acquire) refl)
            (λ same. absurd (ground (arith, is_pending, at_found id job.id s job c found same))) c
    ]

-- The call does not queue a new job under `id`.
abbrev pub Spares : {s t : JobStore} → Step s t → String → Type 0
Spares (enqueues spec k now) id = (k == id) ≡ false
Spares (cancels k now) id = Unit
Spares (acquires queue worker lease_ms now) id = Unit
Spares (completes k outcome now) id = Unit
Spares (fails k error now) id = Unit
Spares (retries k now) id = Unit

-- None of the calls does.
abbrev pub AllSpare : {s t : JobStore} → Calls s t → String → Type 0
AllSpare no_call id = Unit
AllSpare (then_call calls st) id = AllSpare calls id × Spares st id

Step-IsCancelled :
    {s t : JobStore} (st : Step s t) (id : String)
    → Spares st id
    → IsKeyed s
    → IsCancelled id s
    → IsCancelled id t
unfolding enqueue complete fail
Step-IsCancelled {s} (enqueues spec k now) id h v c =
    at_set id k s _ _ refl (λ same. absurd (ground (arith, eq_iff k id))) c
Step-IsCancelled {s} (cancels k now) id h v c = cancel-IsCancelled id k now s c
Step-IsCancelled {s} (acquires queue worker lease_ms now) id h v c =
    acquire-IsCancelled id queue worker lease_ms now s v c
Step-IsCancelled {s} (completes k outcome now) id h v c =
    finish-IsCancelled id k completed outcome none now s c
Step-IsCancelled {s} (fails k error now) id h v c =
    finish-IsCancelled id k failed none (some error) now s c
Step-IsCancelled {s} (retries k now) id h v c = retry-IsCancelled id k now s c

-- A job that is cancelled after any calls on a new store is still cancelled after any further calls, none
-- of which queues a new job under its id.
pub Calls-IsCancelled :
    {s t : JobStore} (id : String) (earlier : Calls empty s) (calls : Calls s t)
    → AllSpare calls id
    → IsCancelled id s
    → IsCancelled id t
Calls-IsCancelled id earlier no_call h c = c
Calls-IsCancelled id earlier (then_call calls st) (h, k) c =
    Step-IsCancelled st id k (Calls-IsKeyed calls (new-IsKeyed earlier))
      (Calls-IsCancelled id earlier calls h c)
