-- ===== src/Gateway/Jobs/Outcomes.antt =====
-- What the methods of the job store do to the job that they name, from any valid store.
use mathlib.Core.Path.{subst}
use snapdragon.Prelude.Json.{Json}
use snapdragon.Prelude.{
  Option, All, ℕ, String, ◌≡◌, refl, sym, ◌∙◌, ap, ◌≢◌, false, none, some, arith, eq_iff, eq_refl,
  if◌then◌else◌, Option-cases, inl, inr, In, In-All, ltb,
}
use snapdragon.Prelude.Maps.{get, set, values, get-set, get-set_self, In-values, values-All}
use snapdragon.Prelude.Sorting.{In-sort, All-sort}
use snapdragon.Gateway.Types.{
  JobSpec, JobStatus, Lease, JobLease, pending, running, completed, failed, cancelled, same_state,
}
use snapdragon.Gateway.JobHelpers.{next_pending_job, expires_before, sort_leases}
use snapdragon.Gateway.JobHelpers.Choice.{next_pending_job-Precedes}
use snapdragon.Gateway.Jobs.{
  JobStore, enqueue, new_job, acquire, grant, new_lease, lease_job, lease_key, finish, complete,
  fail, active_leases, finish_job,
}
use snapdragon.Gateway.Jobs.Valid.{IsValid, Agree, cleared}
use snapdragon.Gateway.Jobs.Keeps.{values-at_id}

-- What `acquire` grants: a job that was pending, of that queue, and now runs under a new lease.
pub record IsGranted (queue worker : String) (lease_ms now : ℕ) (s t : JobStore) (g : JobLease)
    : Type 0 where
  pub job : JobStatus
  pub found : get job.id s.jobs ≡ some job
  pub was_pending : job.state ≡ pending
  pub in_queue : job.spec.queue ≡ queue
  pub granted : g ≡ record {
    job = lease_job (new_lease job worker lease_ms now) now job;
    lease = new_lease job worker lease_ms now;
  }
  pub after_call : t ≡ (grant job worker lease_ms now s).1

pub acquire-IsGranted :
    (queue worker : String) (lease_ms now : ℕ) (s : JobStore) (g : JobLease)
    → IsValid s
    → (acquire queue worker lease_ms now s).0 ≡ some g
    → IsGranted queue worker lease_ms now s (acquire queue worker lease_ms now s).1 g
unfolding acquire grant
acquire-IsGranted queue worker lease_ms now s g v e =
    elim (Option-cases (next_pending_job (values s.jobs) queue)) [
      | inl nothing ↦ absurd (ground arith)
      | inr (job, chosen) ↦
          let p = next_pending_job-Precedes (values s.jobs) queue job chosen in
          record {
            job = job;
            found = In-All _ _ job (values-at_id s v) p.0;
            was_pending = p.1;
            in_queue = p.2;
            granted = ground arith;
            after_call = rw (chosen, acquire) refl;
          }
    ]

-- A job that is running is not granted again, and stays as it is.
pub acquire_exclusive :
    (queue worker : String) (lease_ms now : ℕ) (s : JobStore) (g : JobLease) (id : String)
    (job : JobStatus)
    → IsValid s
    → (acquire queue worker lease_ms now s).0 ≡ some g
    → get id s.jobs ≡ some job
    → job.state ≡ running
    → (g.job.id ≢ id) × (get id (acquire queue worker lease_ms now s).1.jobs ≡ some job)
acquire_exclusive queue worker lease_ms now s g id job v e found busy =
    let r = acquire-IsGranted queue worker lease_ms now s g v e in
    let other : r.job.id ≢ id = λ same.
      ground
        (arith, r.found, r.was_pending, subst (λ k. get k s.jobs ≡ some job) (sym same) found) in
    (
      λ same. other (ap (λ (x : JobLease). x.job.id) (sym r.granted) ∙ same),
      rw r.after_call
          (unfold grant in rw (get-set r.job.id id) (ground (arith, eq_iff r.job.id id, other))),
    )

-- The job at `id` after a method that leaves its lease, and that lease.
pub record IsSettled (id : String) (job' : JobStatus) (s : JobStore) : Type 0 where
  pub now_found : get id s.jobs ≡ some job'
  pub unleased : get (lease_key id) s.leases ≡ none

pub failed_job : ℕ → String → JobStatus → JobStatus
failed_job now error job = record job {
  state = if ltb job.attempts job.spec.max_attempts then pending else failed;
  outcome = none;
  last_error = some error;
  updated_at_ms = now;
  lease_id = none;
  lease_expires_at_ms = none;
}

-- In a store that keeps its invariant (jobs stand under their ids, and the leases are those of the
-- running jobs), a job that is reported as failed, whatever its state but cancelled (so also one that is
-- completed), is pending again if it has attempts left and failed if not.
-- Either way the error is recorded, its lease is gone, and the result is the job as it is stored.
pub fail-IsSettled :
    (id error : String) (now : ℕ) (s : JobStore) (job : JobStatus)
    → IsValid s
    → get id s.jobs ≡ some job
    → job.state ≢ cancelled
    → ((fail id error now s).0 ≡ some (failed_job now error job))
      × IsSettled id (failed_job now error job) (fail id error now s).1
unfolding fail failed_job
fail-IsSettled id error now s job v found alive =
    let active : same_state job.state cancelled ≡ false = ground arith in
    let a : Agree id (some job) (get (lease_key id) s.leases) = rw found at (v.agree id) in
    (
      rw (found, finish, active) refl,
      rw (found, finish, active)
          (record {
            now_found = get-set_self id _ s.jobs;
            unleased = cleared id job s.leases a id ∙ rw (eq_refl id) refl;
          }),
    )

-- A job that is not cancelled and completes is stored with its result, and its lease is gone.
pub complete-IsSettled :
    (id : String) (outcome : Option Json) (now : ℕ) (s : JobStore) (job : JobStatus)
    → IsValid s
    → get id s.jobs ≡ some job
    → job.state ≢ cancelled
    → ((complete id outcome now s).0 ≡ some (finish_job completed outcome none now job))
      × IsSettled id (finish_job completed outcome none now job) (complete id outcome now s).1
unfolding complete
complete-IsSettled id outcome now s job v found alive =
    let active : same_state job.state cancelled ≡ false = ground arith in
    let a : Agree id (some job) (get (lease_key id) s.leases) = rw found at (v.agree id) in
    (
      rw (found, finish, active) refl,
      rw (found, finish, active)
          (record {
            now_found = get-set_self id _ s.jobs;
            unleased = cleared id job s.leases a id ∙ rw (eq_refl id) refl;
          }),
    )

-- An active lease stands at the key of its job.
pub active_leases-at_key :
    (s : JobStore)
    → IsValid s
    → All (λ lease. get (lease_key lease.job_id) s.leases ≡ some lease) (active_leases s)
unfolding active_leases sort_leases
active_leases-at_key s v = All-sort expires_before _ (values s.leases) (
    values-All (λ lease. get (lease_key lease.job_id) s.leases ≡ some lease) s.leases
      (λ key lease e. subst (λ k. get k s.leases ≡ some lease) (v.keyed key lease e) e)
      v.unique_leases)

-- A running job has its lease among the active leases.
pub running-In-active_leases :
    (id : String) (s : JobStore) (job : JobStatus)
    → IsValid s
    → get id s.jobs ≡ some job
    → job.state ≡ running
    → (lease : Lease) × In lease (active_leases s) × (lease.job_id ≡ id)
unfolding active_leases sort_leases
running-In-active_leases id s job v found busy = elim (Option-cases (get (lease_key id) s.leases)) [
  | inl e ↦
      let a : Agree id (some job) none = rw (found, e) at (v.agree id) in absurd (ground (arith, a))
  | inr (lease, e) ↦
      let a : Agree id (some job) (some lease) = rw (found, e) at (v.agree id) in
      (
        lease,
        In-sort expires_before lease (values s.leases) (In-values (lease_key id) lease s.leases e),
        a.4,
      )
]

-- A job that is queued under the id of a running job takes its place, and the lease of the running
-- job stays among the active leases: the store then breaks its invariant.
pub enqueue_over_running :
    (spec : JobSpec) (id : String) (now : ℕ) (s : JobStore) (job : JobStatus)
    → IsValid s
    → get id s.jobs ≡ some job
    → job.state ≡ running
    → (get id (enqueue spec id now s).1.jobs ≡ some (new_job spec id now))
      × ((lease : Lease) × In lease (active_leases (enqueue spec id now s).1) × (lease.job_id ≡ id))
      × ¬ IsValid (enqueue spec id now s).1
unfolding enqueue active_leases
enqueue_over_running spec id now s job v found busy = (
  get-set_self id _ s.jobs,
  running-In-active_leases id s job v found busy,
  λ broken.
      let later = get-set_self id (new_job spec id now) s.jobs in
      elim (Option-cases (get (lease_key id) s.leases)) [
        | inl e ↦
            let a : Agree id (some job) none = rw (found, e) at (v.agree id) in
            absurd (ground (arith, a))
        | inr (lease, e) ↦
            let a : Agree id (some (new_job spec id now)) (some lease) =
              rw (later, e) at (broken.agree id) in
            absurd (ground (arith, a))
      ],
)

-- What `acquire` returned is in the store: the job runs, and its lease is active.
pub record IsStored (worker : String) (t : JobStore) (g : JobLease) : Type 0 where
  pub found : get g.job.id t.jobs ≡ some g.job
  pub is_running : g.job.state ≡ running
  pub active : In g.lease (active_leases t)
  pub for_job : g.lease.job_id ≡ g.job.id
  pub for_worker : g.lease.worker ≡ worker

pub acquire-IsStored :
    (queue worker : String) (lease_ms now : ℕ) (s : JobStore) (g : JobLease)
    → IsValid s
    → (acquire queue worker lease_ms now s).0 ≡ some g
    → IsStored worker (acquire queue worker lease_ms now s).1 g
acquire-IsStored queue worker lease_ms now s g v e =
    let r = acquire-IsGranted queue worker lease_ms now s g v e in
    let lease = new_lease r.job worker lease_ms now in
    let t = (grant r.job worker lease_ms now s).1 in
    let there : IsStored worker t (record { job = lease_job lease now r.job; lease = lease }) =
      record {
        found = unfold grant in get-set_self r.job.id _ s.jobs;
        is_running = refl;
        active =
            unfold active_leases sort_leases grant in
            In-sort expires_before lease _ (
              In-values (lease_key r.job.id) lease (set (lease_key r.job.id) lease s.leases)
                (get-set_self (lease_key r.job.id) lease s.leases));
        for_job = refl;
        for_worker = refl;
      } in
    rw r.after_call (subst (IsStored worker t) (sym r.granted) there)
