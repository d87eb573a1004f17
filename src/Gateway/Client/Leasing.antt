-- ===== src/Gateway/Client/Leasing.antt =====
-- A lease through the client: a worker acquires a job, and completes it.
use snapdragon.Prelude.{ℕ, String, ◌≡◌, some}
use snapdragon.Prelude.Json.{Json}
use snapdragon.Gateway.Effects.{returns}
use snapdragon.Gateway.Types.{JobLease}
use snapdragon.Gateway.Jobs.{acquire}
use snapdragon.Gateway.Jobs.Valid.{IsValid as JobsAreValid}
use snapdragon.Gateway.Workers.{mark_leased}
use snapdragon.Gateway.Workers.Valid.{IsValid as WorkersAreValid}
use snapdragon.Gateway.Client.{Client}

-- The job store and the worker store are valid.
pub record IsValid (c : Client) : Type 0 where
  pub jobs : JobsAreValid c.jobs
  pub workers : WorkersAreValid c.workers

-- What `acquireJob` leaves when it returns a job.
record IsAcquired (queue worker : String) (lease_ms now : ℕ) (c : Client) (g : JobLease)
    (c1 : Client) : Type 0 where
  from_queue : (acquire queue worker lease_ms now c.jobs).0 ≡ some g
  marked : (mark_leased worker queue g.lease now c.workers).0 ≡ returns tt
  jobs : c1.jobs ≡ (acquire queue worker lease_ms now c.jobs).1
  workers : c1.workers ≡ (mark_leased worker queue g.lease now c.workers).1
