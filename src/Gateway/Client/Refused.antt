-- ===== src/Gateway/Client/Refused.antt =====
-- A worker whose name is refused, and the job that it asked for.
use snapdragon.Prelude.{ℕ, String, ◌≡◌, refl, Option, none, some}
use snapdragon.Gateway.Effects.{throws}
use snapdragon.Gateway.Types.{Lease, JobLease}
use snapdragon.Gateway.Jobs.{acquire}
use snapdragon.Gateway.Jobs.Valid.{IsValid}
use snapdragon.Gateway.Jobs.Outcomes.{IsStored, acquire-IsStored}
use snapdragon.Gateway.Workers.Records.{worker_id}
use snapdragon.Gateway.Workers.{mark_leased}
use snapdragon.Gateway.Client.{Client, mark_granted, acquire_job}

mark_leased-refused :
    (worker queue : String) (lease : Lease) (now : ℕ) (c : Client) (message : String)
    → worker_id worker ≡ throws message
    → (mark_leased worker queue lease now c.workers).0 ≡ throws message
unfolding mark_leased
mark_leased-refused worker queue lease now c message e = rw (e, mark_leased) refl

mark_granted-refused :
    (queue worker : String) (now : ℕ) (o : Option JobLease) (c : Client) (g : JobLease)
    (message : String)
    → o ≡ some g
    → worker_id worker ≡ throws message
    → ((mark_granted queue worker now (o, c)).0 ≡ throws message)
      × ((mark_granted queue worker now (o, c)).1.jobs ≡ c.jobs)
unfolding mark_granted
mark_granted-refused queue worker now none c g message h e = cc h
mark_granted-refused queue worker now (some granted) c g message h e =
    rw (mark_leased-refused worker queue granted.lease now c message e, mark_granted) (refl, refl)

-- Where the queue has a job for it, a worker whose name is refused gets the error and no job, and
-- yet the job is left running under a lease in that name.
pub acquire_job_refused :
    (queue worker : String) (lease_ms now : ℕ) (c : Client) (g : JobLease) (message : String)
    → IsValid c.jobs
    → (acquire queue worker lease_ms now c.jobs).0 ≡ some g
    → worker_id worker ≡ throws message
    → ((acquire_job queue worker (some lease_ms) now c).0 ≡ throws message)
      × IsStored worker (acquire_job queue worker (some lease_ms) now c).1.jobs g
unfolding acquire_job
acquire_job_refused queue worker lease_ms now c g message v h e =
    let r =
      mark_granted-refused queue worker now (acquire queue worker lease_ms now c.jobs).0 _ g message
        h e in
    (r.0, rw r.1 (acquire-IsStored queue worker lease_ms now c.jobs g v h))
