-- ===== src/Gateway/Jobs/Keyed.antt =====
-- The part of the job store's invariant that every call keeps: each job stands once, under its own id.
use mathlib.Core.Path.{subst}
use snapdragon.Prelude.{
  ℕ, String, ◌≡◌, refl, sym, Option, none, some, arith, eq_iff, Bool-cases, Option-cases, inl, inr,
  In-All, All,
}
use snapdragon.Prelude.Json.{Json}
use snapdragon.Prelude.Maps.{
  get, set, values, get-set, HasUniqueKeys, set-HasUniqueKeys, values-All,
}
use snapdragon.Gateway.Types.{
  JobStatus, JobState, pending, completed, failed, cancelled, same_state,
}
use snapdragon.Gateway.JobHelpers.{next_pending_job}
use snapdragon.Gateway.JobHelpers.Choice.{next_pending_job-Precedes}
use snapdragon.Gateway.Jobs.{
  JobStore, empty, enqueue, new_job, cancel, cancel_job, acquire, grant, new_lease, lease_job,
  finish, finish_job, complete, fail, retry, retry_job,
}
use snapdragon.Gateway.Jobs.Lifecycle.{
  Step, enqueues, cancels, acquires, completes, fails, retries, Calls, no_call, then_call,
}

pub record IsKeyed (s : JobStore) : Type 0 where
  pub unique : HasUniqueKeys s.jobs
  pub at_id : (k : String) (job : JobStatus) → get k s.jobs ≡ some job → job.id ≡ k

empty-IsKeyed : IsKeyed empty
unfolding get
empty-IsKeyed = record { unique = tt; at_id = λ k job e. cc }

set-IsKeyed :
    (s t : JobStore) (id : String) (job : JobStatus)
    → t.jobs ≡ set id job s.jobs
    → job.id ≡ id
    → IsKeyed s
    → IsKeyed t
set-IsKeyed s t id job e same v = record {
  unique = rw e (set-HasUniqueKeys id job s.jobs v.unique);
  at_id = λ k other f.
      let g : get k (set id job s.jobs) ≡ some other = rw e at f in
      ground (arith, get-set id k job s.jobs, eq_iff id k, v.at_id k other, same, g);
}

-- The job that `acquire` looks up is in the store, and is pending.
pub pending_found :
    (s : JobStore) (queue : String) (job : JobStatus)
    → IsKeyed s
    → next_pending_job (values s.jobs) queue ≡ some job
    → (get job.id s.jobs ≡ some job) × (job.state ≡ pending)
pending_found s queue job v e =
    let (member, is_pending, in_queue, first) =
      next_pending_job-Precedes (values s.jobs) queue job e in
    let at_ids : All (λ j. get j.id s.jobs ≡ some j) (values s.jobs) =
      values-All (λ j. get j.id s.jobs ≡ some j) s.jobs
        (λ k j f. subst (λ i. get i s.jobs ≡ some j) (sym (v.at_id k j f)) f) v.unique in
    (In-All _ _ job at_ids member, is_pending)

cancel-IsKeyed : (id : String) (now : ℕ) (s : JobStore) → IsKeyed s → IsKeyed (cancel id now s).1
unfolding cancel
cancel-IsKeyed id now s v = elim (Option-cases (get id s.jobs)) [
  | inl e ↦ rw (e, cancel) v
  | inr (job, e) ↦
      rw (e, cancel) (set-IsKeyed s _ id (cancel_job now job) refl (v.at_id id job e) v)
]

finish-IsKeyed :
    (id : String) (requested : JobState) (outcome : Option Json) (error : Option String) (now : ℕ)
    (s : JobStore)
    → IsKeyed s
    → IsKeyed (finish id requested outcome error now s).1
unfolding finish
finish-IsKeyed id requested outcome error now s v = elim (Option-cases (get id s.jobs)) [
  | inl e ↦ rw (e, finish) v
  | inr (job, e) ↦ elim (Bool-cases (same_state job.state cancelled)) [
    | inl h ↦ rw (e, finish, h) v
    | inr h ↦
        rw (e, finish, h)
          (set-IsKeyed s _ id (finish_job requested outcome error now job) refl (v.at_id id job e)
            v)
  ]
]

retry-IsKeyed : (id : String) (now : ℕ) (s : JobStore) → IsKeyed s → IsKeyed (retry id now s).1
unfolding retry
retry-IsKeyed id now s v = elim (Option-cases (get id s.jobs)) [
  | inl e ↦ rw (e, retry) v
  | inr (job, e) ↦ elim (Bool-cases (same_state job.state failed)) [
    | inl h ↦ rw (e, retry, h) (set-IsKeyed s _ id (retry_job now job) refl (v.at_id id job e) v)
    | inr h ↦ rw (e, retry, h) v
  ]
]

acquire-IsKeyed :
    (queue worker : String) (lease_ms now : ℕ) (s : JobStore)
    → IsKeyed s
    → IsKeyed (acquire queue worker lease_ms now s).1
unfolding acquire grant
acquire-IsKeyed queue worker lease_ms now s v =
    elim (Option-cases (next_pending_job (values s.jobs) queue)) [
      | inl e ↦ rw (e, acquire) v
      | inr (job, e) ↦
          rw (e, acquire)
            (set-IsKeyed s _ job.id (lease_job (new_lease job worker lease_ms now) now job) refl
              refl v)
    ]

pub Step-IsKeyed : {s t : JobStore} → Step s t → IsKeyed s → IsKeyed t
unfolding enqueue complete fail
Step-IsKeyed {s} (enqueues spec id now) v = set-IsKeyed s _ id (new_job spec id now) refl refl v
Step-IsKeyed {s} (cancels id now) v = cancel-IsKeyed id now s v
Step-IsKeyed {s} (acquires queue worker lease_ms now) v =
    acquire-IsKeyed queue worker lease_ms now s v
Step-IsKeyed {s} (completes id outcome now) v = finish-IsKeyed id completed outcome none now s v
Step-IsKeyed {s} (fails id error now) v = finish-IsKeyed id failed none (some error) now s v
Step-IsKeyed {s} (retries id now) v = retry-IsKeyed id now s v

-- After any calls on a store with each job once, under its own id, this is still so.
pub Calls-IsKeyed : {s t : JobStore} → Calls s t → IsKeyed s → IsKeyed t
Calls-IsKeyed no_call v = v
Calls-IsKeyed (then_call calls st) v = Step-IsKeyed st (Calls-IsKeyed calls v)

pub new-IsKeyed : {s : JobStore} → Calls empty s → IsKeyed s
new-IsKeyed calls = Calls-IsKeyed calls empty-IsKeyed
