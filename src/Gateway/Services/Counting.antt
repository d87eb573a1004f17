-- ===== src/Gateway/Services/Counting.antt =====
-- The counters of a service over a history of runs.
use snapdragon.Prelude.{
  ℕ, suc, ◌+◌, ◌≡◌, refl, Bool, true, false, some, List, [], ◌∷◌, arith, if◌then◌else◌,
}
use snapdragon.Gateway.Services.Records.{Service, RunResult, resolved, rejected, ServiceSpec}
use snapdragon.Gateway.Services.{finished_service, service_state}

-- Runs one after the other, each with its end and the time of it; the latest is first.
pub finish_runs : List (RunResult × ℕ) → Service → Service
unfolding finished_service
finish_runs [] service = service
finish_runs ((result, now) ∷ earlier) service =
    finished_service result now (finish_runs earlier service)

abbrev pub is_rejected : RunResult → Bool
is_rejected (resolved summary) = false
is_rejected (rejected message) = true

-- The number of runs that threw, of those that did not, and of those that threw since the last that
-- did not.
abbrev pub rejections : List (RunResult × ℕ) → ℕ
rejections [] = 0
rejections ((result, now) ∷ earlier) = (if is_rejected result then 1 else 0) + rejections earlier

abbrev pub successes : List (RunResult × ℕ) → ℕ
successes [] = 0
successes ((result, now) ∷ earlier) = (if is_rejected result then 0 else 1) + successes earlier

abbrev pub streak : List (RunResult × ℕ) → ℕ
streak [] = 0
streak ((result, now) ∷ earlier) =
    let before = streak earlier in if is_rejected result then suc before else 0

has_runner_kept :
    (ends : List (RunResult × ℕ)) (service : Service)
    → (finish_runs ends service).has_runner ≡ service.has_runner
unfolding finish_runs
has_runner_kept [] service = refl
has_runner_kept ((result, now) ∷ earlier) service = has_runner_kept earlier service

-- From its registration on, a service with a runner counts the runs that ended well, the runs that
-- threw, and how many of these came in a row at last.
pub finish_runs-counts :
    (spec : ServiceSpec) (ends : List (RunResult × ℕ))
    → ((finish_runs ends (service_state spec true)).status.runs ≡ successes ends)
      × ((finish_runs ends (service_state spec true)).status.errors ≡ rejections ends)
      × ((finish_runs ends (service_state spec true)).status.consecutive_errors
          ≡ some (streak ends))
unfolding finish_runs service_state
finish_runs-counts spec [] = (refl, refl, refl)
finish_runs-counts spec ((resolved summary, now) ∷ earlier) =
    let kept = has_runner_kept earlier (service_state spec true) in
    let (p, q, h) = finish_runs-counts spec earlier in ground (arith, kept, p, q, h)
finish_runs-counts spec ((rejected message, now) ∷ earlier) =
    let kept = has_runner_kept earlier (service_state spec true) in
    let (p, q, h) = finish_runs-counts spec earlier in ground (arith, kept, p, q, h)
