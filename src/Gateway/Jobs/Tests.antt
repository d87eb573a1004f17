-- ===== src/Gateway/Jobs/Tests.antt =====
-- Runs of the job store, and its theorems at concrete calls.
use snapdragon.Prelude.{
  ltb, if◌then◌else◌, ◌≡◌, ◌≢◌, refl, none, some, [], ◌∷◌, In, All, inl, arith,
}
use snapdragon.Prelude.Int.{pos}
use snapdragon.Prelude.Maps.{get, set, delete, values}
use snapdragon.Prelude.Sorting.{sort}
use snapdragon.Gateway.Types.{JobSpec, Lease, JobLease, pending, running, failed, cancelled}
use snapdragon.Gateway.JobHelpers.{next_pending_job, sort_leases, queue_depths_from_jobs}
use snapdragon.Gateway.JobHelpers.Choice.{Precedes, next_pending_job-Precedes}
use snapdragon.Gateway.Jobs.{
  JobStore, empty, enqueue, new_job, cancel, acquire, grant, complete, fail, retry, active_leases,
  lease_key, count,
}
use snapdragon.Gateway.Jobs.Valid.{IsValid, empty-IsValid}
use snapdragon.Gateway.Jobs.Keeps.{enqueue-IsValid, acquire-IsValid}
use snapdragon.Gateway.Jobs.Lifecycle.{
  Calls, no_call, then_call, FreshIds, enqueues, cancels, acquires, fails, IsHeld,
  active_leases-IsHeld,
}
use snapdragon.Gateway.Jobs.Outcomes.{
  acquire_exclusive, fail-IsSettled, failed_job, IsSettled, enqueue_over_running,
}
use snapdragon.Gateway.Jobs.Rounds.{rounds, rounds_of_new_job}
use snapdragon.Gateway.Jobs.Cancelled.{IsCancelled, Calls-IsCancelled}

jobs_run : Unit {0}
unfolding enqueue cancel acquire grant complete fail retry active_leases count next_pending_job
    sort_leases queue_depths_from_jobs sort get set delete
jobs_run = tt

abbrev low : JobSpec
low = record {
  kind = "agent";
  queue = none;
  payload = none;
  priority = none;
  max_attempts = some 2;
  timeout_ms = none;
}

abbrev high : JobSpec
high = record low { priority = some (pos 5) }

abbrev queued : JobStore
queued = (enqueue high "b" 20 (enqueue low "a" 10 empty).1).1

abbrev leased : JobStore
leased = (acquire "default" "w" 100 30 queued).1

abbrev granted : JobLease
granted = record {
  job = record (new_job high "b" 20) {
    state = running;
    attempts = 1;
    updated_at_ms = 30;
    lease_id = some "lease_b";
    lease_expires_at_ms = some 130;
  };
  lease = record {
    id = "lease_b";
    job_id = "b";
    worker = "w";
    acquired_at_ms = 30;
    expires_at_ms = 130;
  };
}

-- The job of the higher priority is served first, though it is younger.
acquire_runs : (acquire "default" "w" 100 30 queued).0 ≡ some granted
unfolding jobs_run
acquire_runs = refl

leases_run : active_leases leased ≡ granted.lease ∷ []
unfolding jobs_run
leases_run = refl

found_granted : get "b" leased.jobs ≡ some granted.job
unfolding jobs_run
found_granted = refl

no_lease : get (lease_key "b") (enqueue low "a" 10 empty).1.leases ≡ none
unfolding jobs_run
no_lease = refl

abbrev calls_queued : Calls empty queued
calls_queued = then_call (then_call no_call (enqueues low "a" 10)) (enqueues high "b" 20)

abbrev calls_leased : Calls empty leased
calls_leased = then_call calls_queued (acquires "default" "w" 100 30)

fresh_leased : FreshIds calls_leased
fresh_leased = (((tt, unfold get in refl), no_lease), tt)

queued-IsValid : IsValid queued
queued-IsValid =
    enqueue-IsValid high "b" 20 _ no_lease
      (enqueue-IsValid low "a" 10 empty (unfold get in refl) empty-IsValid)

leased-IsValid : IsValid leased
leased-IsValid = acquire-IsValid "default" "w" 100 30 queued queued-IsValid

only_lease : In granted.lease (active_leases leased)
unfolding jobs_run
only_lease = inl refl

active_leases-IsHeld_example : IsHeld leased granted.lease
active_leases-IsHeld_example =
    active_leases-IsHeld leased calls_leased granted.lease fresh_leased only_lease

queue_choice : next_pending_job (values queued.jobs) "default" ≡ some (new_job high "b" 20)
unfolding jobs_run
queue_choice = refl

next_pending_job-Precedes_example :
    In (new_job high "b" 20) (values queued.jobs)
    × ((new_job high "b" 20).state ≡ pending)
    × ((new_job high "b" 20).spec.queue ≡ "default")
    × All
        (λ other.
          other.state ≡ pending
          → other.spec.queue ≡ "default"
          → Precedes (new_job high "b" 20) other)
        (values queued.jobs)
next_pending_job-Precedes_example =
    next_pending_job-Precedes (values queued.jobs) "default" (new_job high "b" 20) queue_choice

depths_run :
    queue_depths_from_jobs (values leased.jobs)
    ≡ record { queue = "default"; pending = 1; running = 1 } ∷ []
unfolding jobs_run
depths_run = refl

second_grant : (acquire "default" "v" 100 40 leased).0 ≢ none
unfolding jobs_run
second_grant e = cc e

abbrev second : JobLease
second = record {
  job = record (new_job low "a" 10) {
    state = running;
    attempts = 1;
    updated_at_ms = 40;
    lease_id = some "lease_a";
    lease_expires_at_ms = some 140;
  };
  lease = record {
    id = "lease_a";
    job_id = "a";
    worker = "v";
    acquired_at_ms = 40;
    expires_at_ms = 140;
  };
}

second_runs : (acquire "default" "v" 100 40 leased).0 ≡ some second
unfolding jobs_run
second_runs = refl

acquire_exclusive_example :
    (second.job.id ≢ "b")
    × (get "b" (acquire "default" "v" 100 40 leased).1.jobs ≡ some granted.job)
acquire_exclusive_example =
    acquire_exclusive "default" "v" 100 40 leased second "b" granted.job leased-IsValid second_runs
      found_granted refl

not_cancelled : granted.job.state ≢ cancelled
not_cancelled e = cc e

fail-IsSettled_example :
    ((fail "b" "oops" 50 leased).0 ≡ some (failed_job 50 "oops" granted.job))
    × IsSettled "b" (failed_job 50 "oops" granted.job) (fail "b" "oops" 50 leased).1
fail-IsSettled_example =
    fail-IsSettled "b" "oops" 50 leased granted.job leased-IsValid found_granted not_cancelled

rounds_of_new_job_example :
    ((rounds 2 30 100 "w" "oops" 40 (new_job low "a" 10)).state
      ≡ (if ltb 2 (new_job low "a" 10).spec.max_attempts then pending else failed))
    × ((rounds 2 30 100 "w" "oops" 40 (new_job low "a" 10)).attempts ≡ 2)
rounds_of_new_job_example = rounds_of_new_job low "a" "w" "oops" 10 30 100 40 1 (omega arith)

enqueue_over_running_example :
    (get "b" (enqueue low "b" 60 leased).1.jobs ≡ some (new_job low "b" 60))
    × ((lease : Lease) × In lease (active_leases (enqueue low "b" 60 leased).1)
        × (lease.job_id ≡ "b"))
    × ¬ IsValid (enqueue low "b" 60 leased).1
enqueue_over_running_example =
    enqueue_over_running low "b" 60 leased granted.job leased-IsValid found_granted refl

abbrev stopped : JobStore
stopped = (cancel "b" 70 leased).1

stopped-IsCancelled : IsCancelled "b" stopped
unfolding jobs_run
stopped-IsCancelled = record {
  job = record (new_job high "b" 20) { state = cancelled; attempts = 1; updated_at_ms = 70 };
  found = refl;
  is_cancelled = refl;
}

abbrev long_after : JobStore
long_after = (acquire "default" "v" 100 90 (enqueue high "a" 85 (fail "b" "late" 80 stopped).1).1).1

-- The calls after the job was cancelled: it fails late, another job is queued again, and a worker
-- asks for a job.
Calls-IsCancelled_example : IsCancelled "b" long_after
Calls-IsCancelled_example =
    Calls-IsCancelled "b" (then_call calls_leased (cancels "b" 70))
      (then_call (then_call (then_call no_call (fails "b" "late" 80)) (enqueues high "a" 85))
        (acquires "default" "v" 100 90))
      (((tt, tt), refl), tt) stopped-IsCancelled
