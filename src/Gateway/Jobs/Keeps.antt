-- ===== src/Gateway/Jobs/Keeps.antt =====
-- Every method of the job store keeps its invariant.
use mathlib.Core.Path.{subst}
use snapdragon.Prelude.{
  ℕ, String, ◌≡◌, refl, sym, false, Option, none, some, arith, ◌==◌, eq_iff, Bool-cases,
  Option-cases, inl, inr, In-All, All,
}
use snapdragon.Prelude.Json.{Json}
use snapdragon.Prelude.Maps.{get, values, get-set, set-HasUniqueKeys, values-All}
use snapdragon.Gateway.Types.{JobSpec, JobStatus, JobState, running, failed, cancelled, same_state}
use snapdragon.Gateway.JobHelpers.{next_pending_job, final_job_state}
use snapdragon.Gateway.JobHelpers.Choice.{next_pending_job-Precedes}
use snapdragon.Gateway.Jobs.{
  JobStore, enqueue, new_job, cancel, cancel_job, acquire, grant, new_lease, lease_job, lease_key,
  finish, finish_job, retry, retry_job,
}
use snapdragon.Gateway.Jobs.Valid.{
  IsValid, Agree, Agree-id, Agree-elsewhere, settle_IsValid, lease_key-==,
}

-- A job may be queued under an id that has no lease: a new id, or that of a job that is not running.
pub enqueue-IsValid :
    (spec : JobSpec) (id : String) (now : ℕ) (s : JobStore)
    → get (lease_key id) s.leases ≡ none
    → IsValid s
    → IsValid (enqueue spec id now s).1
unfolding enqueue
enqueue-IsValid spec id now s idle v = record {
  unique = set-HasUniqueKeys id _ s.jobs v.unique;
  unique_leases = v.unique_leases;
  agree =
      Agree-elsewhere s id (new_job spec id now) none s.leases v (refl, refl, refl)
        (λ k. elim (Bool-cases (id == k)) [
          | inl e ↦ rw (e, ← (eq_iff id k).0 e) idle
          | inr e ↦ rw e
        ]);
  keyed = v.keyed;
}

pub cancel-IsValid :
    (id : String) (now : ℕ) (s : JobStore) → IsValid s → IsValid (cancel id now s).1
unfolding cancel
cancel-IsValid id now s v = elim (Option-cases (get id s.jobs)) [
  | inl e ↦ rw (e, cancel) v
  | inr (job, e) ↦ rw (e, cancel) (settle_IsValid s id job (cancel_job now job) v e refl refl refl)
]

final_not_running :
    (job : JobStatus) (requested : JobState)
    → same_state requested running ≡ false
    → same_state (final_job_state job requested) running ≡ false
unfolding final_job_state
final_not_running job requested h = ground arith

pub finish-IsValid :
    (id : String) (requested : JobState) (outcome : Option Json) (error : Option String) (now : ℕ)
    (s : JobStore)
    → same_state requested running ≡ false
    → IsValid s
    → IsValid (finish id requested outcome error now s).1
unfolding finish
finish-IsValid id requested outcome error now s h v = elim (Option-cases (get id s.jobs)) [
  | inl e ↦ rw (e, finish) v
  | inr (job, e) ↦ elim (Bool-cases (same_state job.state cancelled)) [
    | inl c ↦ rw (e, finish, c) v
    | inr c ↦
        rw (e, finish, c)
          (settle_IsValid s id job (finish_job requested outcome error now job) v e refl
            (final_not_running job requested h) refl)
  ]
]

pub retry-IsValid : (id : String) (now : ℕ) (s : JobStore) → IsValid s → IsValid (retry id now s).1
unfolding retry
retry-IsValid id now s v = elim (Option-cases (get id s.jobs)) [
  | inl e ↦ rw (e, retry) v
  | inr (job, e) ↦ elim (Bool-cases (same_state job.state failed)) [
    | inl c ↦ rw (e, retry, c) (settle_IsValid s id job (retry_job now job) v e refl refl refl)
    | inr c ↦ rw (e, retry, c) v
  ]
]

Agree-id_at :
    (s : JobStore)
    → IsValid s
    → (k : String) (job : JobStatus) → get k s.jobs ≡ some job
    → job.id ≡ k
Agree-id_at s v k job e =
    let a : Agree k (some job) (get (lease_key k) s.leases) = rw e at (v.agree k) in
    Agree-id k job (get (lease_key k) s.leases) a

-- The jobs that the queue looks through stand at their own ids.
pub values-at_id :
    (s : JobStore) → IsValid s → All (λ job. get job.id s.jobs ≡ some job) (values s.jobs)
values-at_id s v =
    values-All (λ job. get job.id s.jobs ≡ some job) s.jobs
      (λ k job e. subst (λ i. get i s.jobs ≡ some job) (sym (Agree-id_at s v k job e)) e) v.unique

grant-IsValid :
    (job : JobStatus) (worker : String) (lease_ms now : ℕ) (s : JobStore)
    → get job.id s.jobs ≡ some job
    → IsValid s
    → IsValid (grant job worker lease_ms now s).1
unfolding grant
grant-IsValid job worker lease_ms now s found v =
    let lease = new_lease job worker lease_ms now in
    record {
      unique = set-HasUniqueKeys job.id _ s.jobs v.unique;
      unique_leases = set-HasUniqueKeys (lease_key job.id) lease s.leases v.unique_leases;
      agree =
          Agree-elsewhere s job.id (lease_job lease now job) (some lease) _ v
            (refl, refl, refl, refl, refl, refl)
            (λ k. rw (get-set (lease_key job.id) (lease_key k) lease s.leases, lease_key-==));
      keyed = λ key other e. ground (
        arith,
        get-set (lease_key job.id) key lease s.leases,
        eq_iff (lease_key job.id) key,
        v.keyed key other,
        e,
      );
    }

pub acquire-IsValid :
    (queue worker : String) (lease_ms now : ℕ) (s : JobStore)
    → IsValid s
    → IsValid (acquire queue worker lease_ms now s).1
unfolding acquire
acquire-IsValid queue worker lease_ms now s v =
    elim (Option-cases (next_pending_job (values s.jobs) queue)) [
      | inl e ↦ rw (e, acquire) v
      | inr (job, e) ↦
          let chosen = next_pending_job-Precedes (values s.jobs) queue job e in
          rw (e, acquire)
            (grant-IsValid job worker lease_ms now s (In-All _ _ job (values-at_id s v) chosen.0) v)
    ]
