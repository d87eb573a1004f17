-- ===== src/Gateway/Services/Tests.antt =====
-- Two services; one of them runs.
use mathlib.Core.Bool.{false≢true}
use snapdragon.Prelude.{ℕ, ◌≡◌, ◌≢◌, refl, true, none, some, List, [], ◌∷◌, eq_iff}
use snapdragon.Prelude.Maps.{get, set}
use snapdragon.Gateway.Services.Records.{ServiceSpec, RunResult, resolved, rejected}
use snapdragon.Gateway.Services.{
  ServiceStore, empty, service_state, register, service_at, begin_run, started, end_run,
}
use snapdragon.Gateway.Services.Running.{IsValid, empty-IsValid, register-IsValid, end_run_replaced}

abbrev sweep : ServiceSpec
sweep = record {
  name = "sweep";
  enabled = none;
  interval_ms = some 1000;
  startup_delay_ms = none;
  budget = none;
  restart = none;
  restart_intensity = none;
  backoff_ms = none;
  max_backoff_ms = none;
  worker = none;
}

abbrev index : ServiceSpec
index = record sweep { name = "index" }

abbrev both : ServiceStore
both = register index true (register sweep true empty)

both-IsValid : IsValid both
both-IsValid = register-IsValid index true _ (register-IsValid sweep true empty empty-IsValid)

begins : begin_run "sweep" both ≡ started 0
unfolding begin_run register service_state get set
begins = refl

end_run_replaced_example :
    service_at "sweep" (end_run 0 (rejected "late") 9 (register sweep true both)).1
    ≡ some (service_state sweep true)
end_run_replaced_example =
    end_run_replaced "sweep" 0 sweep true (rejected "late") 9 both both-IsValid begins refl

other_name : index.name ≢ sweep.name
other_name e = false≢true ((eq_iff index.name sweep.name).1 e)

abbrev ends : List (RunResult × ℕ)
ends = (rejected "b", 30) ∷ (rejected "a", 20) ∷ (resolved none, 10) ∷ []
