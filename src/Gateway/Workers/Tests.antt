-- ===== src/Gateway/Workers/Tests.antt =====
-- Two workers, one of which runs a job.
use mathlib.Core.Path.{◌≡◌, refl}
use snapdragon.Prelude.{String, ◌==◌, some, none, [], if◌then◌else◌}
use snapdragon.Prelude.Maps.{get, set}
use snapdragon.Prelude.Texts.{trim, is_id}
use snapdragon.Gateway.Effects.{throws, returns}
use snapdragon.Gateway.Types.{Lease}
use snapdragon.Gateway.Workers.Records.{
  Registration, Heartbeat, Worker, WorkerStore, idle, running, worker_id, worker_field,
  optional_worker_field, worker_fields,
}
use snapdragon.Gateway.Workers.{
  bare_registration, registered, register, beat, heartbeat, mark_leased, worker_at, clear_lease,
}
use snapdragon.Gateway.Workers.Valid.{IsValid, register-IsValid}
use snapdragon.Gateway.Workers.Leasing.{IsLeased, IsFree, clear_lease-mark_leased}
use snapdragon.Gateway.Workers.Errors.{heartbeat_half_written}

workers_run : Unit {0}
unfolding worker_id worker_field optional_worker_field worker_fields registered register beat
    heartbeat mark_leased worker_at clear_lease get set trim is_id
workers_run = tt

nobody-IsValid : IsValid []
unfolding get
nobody-IsValid id w h = cc h

abbrev two : WorkerStore
two =
    (register (bare_registration "w" "default") 20
      (register (bare_registration "v" "default") 10 []).1).1

two-IsValid : IsValid two
two-IsValid =
    register-IsValid (bare_registration "w" "default") 20 _
      (register-IsValid (bare_registration "v" "default") 10 [] nobody-IsValid)

abbrev lease : Lease
lease = record {
  id = "lease_b";
  job_id = "b";
  worker = " w ";
  acquired_at_ms = 30;
  expires_at_ms = 130;
}

trimmed_name : worker_id " w " ≡ returns "w"
unfolding workers_run
trimmed_name = refl

marks : (mark_leased " w " "default" lease 30 two).0 ≡ returns tt
unfolding workers_run
marks = refl

clear_lease-mark_leased_example :
    IsLeased "w" lease (mark_leased " w " "default" lease 30 two).1
    × IsFree "w" (clear_lease (some lease) 40 (mark_leased " w " "default" lease 30 two).1).1
    × (get "v" (clear_lease (some lease) 40 (mark_leased " w " "default" lease 30 two).1).1 ≡ (
        if "w" == "v"
        then get "w" (clear_lease (some lease) 40 (mark_leased " w " "default" lease 30 two).1).1
        else get "v" two))
clear_lease-mark_leased_example =
    clear_lease-mark_leased " w " "default" "w" "v" lease 30 40 two two-IsValid refl trimmed_name
      marks

abbrev unnamed : Registration
unnamed = bare_registration "w" " "

refusal : (register unnamed 30 two).0 ≡ throws "gateway worker queue must be non-empty"
unfolding workers_run
refusal = refl

abbrev beat_input : Heartbeat
beat_input = record {
  id = "w";
  state = some running;
  queue = some " ";
  status = none;
  last_error = none;
  metadata = none;
}

abbrev worker_w : Worker
worker_w = record {
  id = "w";
  queue = "default";
  runtime_id = none;
  service = none;
  capabilities = [];
  state = idle;
  registered_at_ms = 20;
  heartbeat_at_ms = 20;
  current_job_id = none;
  current_lease_id = none;
  lease_expires_at_ms = none;
  status = none;
  last_error = none;
  metadata = none;
}

own_name : worker_id "w" ≡ returns "w"
unfolding workers_run
own_name = refl

found_w : get "w" two ≡ some worker_w
unfolding workers_run
found_w = refl

blank_queue : trim " " ≡ ""
unfolding trim
blank_queue = refl

heartbeat_half_written_example :
    ((message : String) × ((heartbeat beat_input 50 two).0 ≡ throws message))
    × (get "w" (heartbeat beat_input 50 two).1 ≡ some (record worker_w { state = running }))
heartbeat_half_written_example =
    heartbeat_half_written beat_input 50 two "w" " " running worker_w own_name found_w refl refl
      refl (rw blank_queue refl)
