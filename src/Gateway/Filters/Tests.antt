-- ===== src/Gateway/Filters/Tests.antt =====
-- Filters on two jobs, two workers and a log.
use mathlib.Core.Path.{◌≡◌, refl}
use snapdragon.Prelude.{none, some, List, [], ◌∷◌}
use snapdragon.Prelude.Int.{pos}
use snapdragon.Gateway.Types.{JobSpec, JobStatus}
use snapdragon.Gateway.Jobs.{new_job}
use snapdragon.Gateway.Effects.{LogLine}
use snapdragon.Gateway.Logs.{LogStore, append_all}
use snapdragon.Gateway.Workers.Records.{Worker, idle}
use snapdragon.Gateway.Filters.{WorldOptions, filter_jobs, filter_workers}

abbrev no_options : WorldOptions
no_options = record {
  sections = none;
  target = none;
  queue = none;
  runtime_id = none;
  service = none;
  worker = none;
  worker_state = none;
  capability = none;
  service_state = none;
  service_enabled = none;
  job_kind = none;
  job_state = none;
  event_kind = none;
  event_state = none;
  log_limit = none;
  tables = none;
}

abbrev spec : JobSpec
spec = record {
  kind = "agent";
  queue = some "q";
  payload = none;
  priority = some (pos 1);
  max_attempts = none;
  timeout_ms = none;
}

abbrev jobs : List JobStatus
jobs = new_job spec "a" 10 ∷ new_job spec "b" 20 ∷ []

abbrev about_b : WorldOptions
about_b = record no_options { target = some "b"; job_state = some "pending" }

kept_jobs : filter_jobs jobs about_b ≡ new_job spec "b" 20 ∷ []
unfolding filter_jobs
kept_jobs = refl

abbrev worker : Worker
worker = record {
  id = "w";
  queue = "q";
  runtime_id = none;
  service = some "s";
  capabilities = "search" ∷ "edit" ∷ [];
  state = idle;
  registered_at_ms = 1;
  heartbeat_at_ms = 2;
  current_job_id = none;
  current_lease_id = none;
  lease_expires_at_ms = none;
  status = none;
  last_error = none;
  metadata = none;
}

abbrev editors : WorldOptions
editors = record no_options { capability = some "edit"; service = some "s" }

kept_workers : filter_workers (worker ∷ record worker { service = none } ∷ []) editors ≡ worker ∷ []
unfolding filter_workers
kept_workers = refl

abbrev log_line : LogLine
log_line = record { level = "info"; target = some "b"; message = "one"; data_of = none }

abbrev logged : LogStore
logged = append_all (log_line ∷ record log_line { target = none } ∷ log_line ∷ []) 5 []
