-- ===== src/Gateway/World/Tests.antt =====
-- Snapshots of a client that has a job, two tables and a line in its log.
use snapdragon.Prelude.{none, some, [], ◌∷◌}
use snapdragon.Gateway.Types.{JobSpec}
use snapdragon.Gateway.Jobs.{enqueue}
use snapdragon.Gateway.Logs.{append}
use snapdragon.Gateway.Mailboxes.{ActorId}
use snapdragon.Gateway.Tables.{create}
use snapdragon.Gateway.Client.{Client, empty}
use snapdragon.Gateway.Filters.{WorldOptions}

abbrev spec : JobSpec
spec = record {
  kind = "agent";
  queue = none;
  payload = none;
  priority = none;
  max_attempts = none;
  timeout_ms = none;
}

abbrev owner : ActorId
owner = record { id = "a" }

abbrev client : Client
client = record empty {
  jobs = (enqueue spec "j" 10 empty.jobs).1;
  tables = (create "zebra" owner none (create "apple" owner none []).1).1;
  logs =
      (append (record { level = "info"; target = some "j"; message = "job queued"; data_of = none })
        none 10 []).1;
}

abbrev options : WorldOptions
options = record {
  sections = some ("jobs" ∷ "tables" ∷ "logs" ∷ []);
  target = some "j";
  queue = none;
  runtime_id = none;
  service = none;
  worker = none;
  worker_state = none;
  capability = none;
  service_state = none;
  service_enabled = none;
  job_kind = none;
  job_state = none;
  event_kind = none;
  event_state = none;
  log_limit = some 3;
  tables = some ("zebra" ∷ "none" ∷ []);
}
