-- ===== src/Gateway/Query.antt =====
-- packages/gateway/src/rest-query.ts and rest-query-values.ts: the options of a snapshot from the search
-- part of a URL. The parameters of a URL are the list of their names and values. `to_lower` stands for
-- `toLowerCase`, and `to_number` for the natural number that `Number` reads a text as, if it does.
pub mod Known
mod Tests
use Prim.Native.Char.{code}
use Prim.Native.String
use snapdragon.Prelude.{
  ℕ, zero, suc, String, Bool, true, false, not, Option, none, some, List, [], ◌∷◌, ◌++◌, eqb,
  if◌then◌else◌, filter, has_some, map, ◌==◌,
}
use snapdragon.Prelude.Maps.{Map, get}
use snapdragon.Prelude.Texts.{is_empty, trim}
use snapdragon.Gateway.Filters.{WorldOptions}
use snapdragon.Gateway.World.{all_sections}

abbrev pub SearchParams : Type 0
SearchParams = List (String × String)

-- `searchParams.getAll(key)` and `get(key)`
unfoldable pub get_all : String → SearchParams → List String
get_all key [] = []
get_all key ((k, v) ∷ params) = let rest = get_all key params in if k == key then v ∷ rest else rest

-- `value.split(',')`
abbrev pub add_char : String → List String → List String
add_char c [] = c ∷ []
add_char c (part ∷ parts) = String.◌++◌ c part ∷ parts

unfoldable pub split_commas : String → List String
split_commas String.[] = String.[] ∷ []
split_commas (String.◌∷◌ c s) =
    let rest = split_commas s in
    if eqb (code c) b',' then String.[] ∷ rest else add_char (String.◌∷◌ c String.[]) rest

abbrev pub flat_map : {A B : Type 0} → (A → List B) → List A → List B
flat_map f [] = []
flat_map f (x ∷ xs) = f x ++ flat_map f xs

unfoldable pub csv : SearchParams → List String → List String
unfolding get_all split_commas
csv params keys =
    flat_map
      (λ key.
        filter (λ value. not (is_empty value))
          (map trim (flat_map split_commas (get_all key params))))
      keys

-- `first`: the first of the keys whose first value is not blank
unfoldable pub first_of : SearchParams → List String → Option String
unfolding get_all
first_of params [] = none
first_of params (key ∷ keys) =
    let rest = first_of params keys in
    elim (get_all key params) [
      | [] ↦ rest
      | value ∷ _ ↦ if is_empty (trim value) then rest else some (trim value)
    ]

unfoldable pub positive_int : (String → Option ℕ) → Option String → Option ℕ
positive_int to_number none = none
positive_int to_number (some value) =
    if is_empty value
    then none
    else elim (to_number value) [ none ↦ none | some zero ↦ none | some (suc n) ↦ some (suc n) ]

unfoldable pub parse_sections : SearchParams → Option (List String)
unfolding csv
parse_sections params =
    elim (filter (λ section. has_some (λ s. s == section) all_sections)
      (csv params ("section" ∷ "sections" ∷ []))) [
        | [] ↦ none
        | section ∷ sections ↦ some (section ∷ sections)
      ]

abbrev pub boolean_values : Map Bool
boolean_values =
    ("1", true)
    ∷ ("true", true)
    ∷ ("yes", true)
    ∷ ("on", true)
    ∷ ("0", false)
    ∷ ("false", false)
    ∷ ("no", false)
    ∷ ("off", false)
    ∷ []

abbrev pub boolean_param : (String → String) → Option String → Option Bool
boolean_param to_lower none = none
boolean_param to_lower (some value) = get (to_lower value) boolean_values

abbrev pub job_states : List String
job_states = "pending" ∷ "running" ∷ "completed" ∷ "failed" ∷ "cancelled" ∷ []

abbrev pub event_states : List String
event_states = "pending" ∷ "running" ∷ "done" ∷ "failed" ∷ "cancelled" ∷ []

abbrev pub service_states : List String
service_states = "starting" ∷ "running" ∷ "stopped" ∷ "failed" ∷ []

abbrev pub worker_states : List String
worker_states = "idle" ∷ "running" ∷ "offline" ∷ "exited" ∷ "timed_out" ∷ "failed" ∷ []

unfoldable pub state_param : Option String → List String → Option String
state_param none allowed = none
state_param (some value) allowed =
    if has_some (λ state. state == value) allowed then some value else none

unfoldable pub world_snapshot_options_from_search :
    (String → String) → (String → Option ℕ) → SearchParams → WorldOptions
unfolding first_of csv parse_sections positive_int state_param
world_snapshot_options_from_search to_lower to_number params =
    let first = first_of params in
    record {
      sections = parse_sections params;
      target = first ("target" ∷ "job" ∷ "jobId" ∷ "id" ∷ []);
      queue = first ("queue" ∷ []);
      runtime_id = first ("runtime" ∷ "runtimeId" ∷ []);
      service = first ("service" ∷ "serviceName" ∷ []);
      worker = first ("worker" ∷ "workerId" ∷ "process" ∷ "processId" ∷ []);
      worker_state =
          state_param (first ("workerState" ∷ "workerStatus" ∷ "state" ∷ [])) worker_states;
      capability = first ("capability" ∷ []);
      service_state =
          state_param (first ("serviceState" ∷ "serviceStatus" ∷ "state" ∷ [])) service_states;
      service_enabled = boolean_param to_lower (first ("enabled" ∷ []));
      job_kind = first ("kind" ∷ "jobKind" ∷ []);
      job_state = state_param (first ("jobState" ∷ "state" ∷ [])) job_states;
      event_kind = first ("eventKind" ∷ []);
      event_state = state_param (first ("eventState" ∷ "state" ∷ [])) event_states;
      log_limit = positive_int to_number (first ("limit" ∷ "logLimit" ∷ []));
      tables = some (csv params ("table" ∷ "tables" ∷ []));
    }
