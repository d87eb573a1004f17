-- ===== src/Gateway/Client/Tests.antt =====
-- A client with one queued job, which a worker acquires and completes.
use mathlib.Core.Path.{◌≡◌, refl}
use snapdragon.Prelude.{String, none, some}
use snapdragon.Prelude.Maps.{get, set, delete}
use snapdragon.Prelude.Sorting.{sort}
use snapdragon.Prelude.Texts.{trim, is_id}
use snapdragon.Gateway.Effects.{throws}
use snapdragon.Gateway.Types.{JobSpec, JobLease, running}
use snapdragon.Gateway.JobHelpers.{next_pending_job}
use snapdragon.Gateway.Jobs.{enqueue, new_job, acquire, grant}
use snapdragon.Gateway.Logs.{append, append_all}
use snapdragon.Gateway.Workers.Records.{
  worker_id, worker_field, optional_worker_field, worker_fields,
}
use snapdragon.Gateway.Workers.{registered, register, worker_at, mark_leased}
use snapdragon.Gateway.Workers.Valid.{IsValid as WorkersAreValid}
use snapdragon.Gateway.Client.{Client, empty, enqueue_job, mark_granted, acquire_job}
use snapdragon.Gateway.Client.Leasing.{IsValid}

client_run : Unit {0}
unfolding enqueue acquire grant next_pending_job get set delete sort trim is_id append append_all
    worker_id worker_field optional_worker_field worker_fields registered register worker_at
    mark_leased enqueue_job mark_granted acquire_job
client_run = tt

abbrev spec : JobSpec
spec = record {
  kind = "agent";
  queue = none;
  payload = none;
  priority = none;
  max_attempts = none;
  timeout_ms = none;
}

abbrev queued : Client
queued = record empty { jobs = (enqueue spec "j" 10 empty.jobs).1 }

abbrev granted_to : String → JobLease
granted_to worker = record {
  job = record (new_job spec "j" 10) {
    state = running;
    attempts = 1;
    updated_at_ms = 20;
    lease_id = some "lease_j";
    lease_expires_at_ms = some 120;
  };
  lease = record {
    id = "lease_j";
    job_id = "j";
    worker = worker;
    acquired_at_ms = 20;
    expires_at_ms = 120;
  };
}

abbrev acquired : Client
acquired = (acquire_job "default" "w" (some 100) 20 queued).1

refused_name : worker_id " " ≡ throws "gateway worker id must be non-empty"
unfolding client_run
refused_name = refl

granted_anyway : (acquire "default" " " 100 20 queued.jobs).0 ≡ some (granted_to " ")
unfolding client_run
granted_anyway = refl
