-- ===== src/Gateway/Jobs/Rounds.antt =====
-- A job that fails over and over.
use snapdragon.Prelude.{
  ℕ, zero, suc, ◌+◌, ◌≤◌, String, ◌≡◌, refl, ap, none, some, arith, if◌then◌else◌, ltb,
}
use snapdragon.Gateway.Types.{FullSpec, JobSpec, JobStatus, pending, failed}
use snapdragon.Gateway.JobHelpers.{final_job_state}
use snapdragon.Gateway.Jobs.{new_job, new_lease, lease_job, finish_job}

-- The attempts that one round of leasing and failing leaves, and the state.
round : ℕ → ℕ → String → String → ℕ → JobStatus → JobStatus
round now lease_ms worker error then_ms job =
    finish_job failed none (some error) then_ms
      (lease_job (new_lease job worker lease_ms now) now job)

pub rounds : ℕ → ℕ → ℕ → String → String → ℕ → JobStatus → JobStatus
rounds zero now lease_ms worker error then_ms job = job
rounds (suc n) now lease_ms worker error then_ms job =
    round now lease_ms worker error then_ms (rounds n now lease_ms worker error then_ms job)

rounds-state :
    (n now lease_ms : ℕ) (worker error : String) (then_ms : ℕ) (job : JobStatus)
    → ((rounds n now lease_ms worker error then_ms job).spec ≡ job.spec)
      × ((rounds n now lease_ms worker error then_ms job).attempts ≡ job.attempts + n)
unfolding rounds round
rounds-state zero now lease_ms worker error then_ms job = (refl, omega arith)
rounds-state (suc n) now lease_ms worker error then_ms job =
    let (p, q) = rounds-state n now lease_ms worker error then_ms job in (p, omega (arith, q))

-- A new job that is leased and fails over and over is pending again after each round but the last
-- that `maxAttempts` allows, and has then failed; each round has counted as one attempt.
pub rounds_of_new_job :
    (spec : JobSpec) (id worker error : String) (created now lease_ms then_ms n : ℕ)
    → suc n ≤ (new_job spec id created).spec.max_attempts
    → ((rounds (suc n) now lease_ms worker error then_ms (new_job spec id created)).state
        ≡ (if ltb (suc n) (new_job spec id created).spec.max_attempts then pending else failed))
      × ((rounds (suc n) now lease_ms worker error then_ms (new_job spec id created)).attempts
          ≡ suc n)
unfolding rounds round final_job_state
rounds_of_new_job spec id worker error created now lease_ms then_ms n h =
    let job = new_job spec id created in
    let (p, q) = rounds-state n now lease_ms worker error then_ms job in
    let m : (rounds n now lease_ms worker error then_ms job).spec.max_attempts
        ≡ job.spec.max_attempts =
      ap (λ (f : FullSpec). f.max_attempts) p in
    (ground (arith, q, m), omega (arith, q))
