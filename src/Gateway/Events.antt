-- ===== src/Gateway/Events.antt =====
-- packages/gateway/src/inline-events.ts: the events that wait for a worker. A generated id is the
-- argument `fresh`.
mod Tests
pub mod Cancelling
use snapdragon.Prelude.{ℕ, String, Bool, Option, none, some, List, [], ◌∷◌, ltb, or_else}
use snapdragon.Prelude.Json.{Json, str, obj, field, end, or_empty_object}
use snapdragon.Prelude.Maps.{Map, get, set, values}
use snapdragon.Prelude.Sorting.{sort}
use snapdragon.Gateway.Effects.{Act, LogLine}

pub data EventState : Type 0 where
  pending running done failed cancelled : EventState

pub record EventInput : Type 0 where
  pub id : Option String
  pub kind : String
  pub target : Option String
  pub payload : Option Json

pub record EventRecord : Type 0 where
  pub id : String
  pub kind : String
  pub target : Option String
  pub state : EventState
  pub payload : Json
  pub created_at_ms : ℕ
  pub updated_at_ms : ℕ

abbrev pub EventStore : Type 0
EventStore = Map EventRecord

abbrev pub new_event : EventInput → String → ℕ → EventRecord
new_event input fresh now = record {
  id = or_else input.id fresh;
  kind = input.kind;
  target = input.target;
  state = pending;
  payload = or_empty_object input.payload;
  created_at_ms = now;
  updated_at_ms = now;
}

unfoldable pub append : EventInput → String → ℕ → Act EventStore EventRecord
append input fresh now s =
    let event = new_event input fresh now in
    (
      event,
      set event.id event s,
      record {
        level = "info";
        target = some event.id;
        message = "event appended";
        data_of = some (obj (field "kind" (str event.kind) end));
      }
          ∷ [],
    )

abbrev pub updated_before : EventRecord → EventRecord → Bool
updated_before a b = ltb b.updated_at_ms a.updated_at_ms

unfoldable pub list : EventStore → List EventRecord
list s = sort updated_before (values s)

abbrev pub cancel_event : ℕ → EventRecord → EventRecord
cancel_event now event = record event { state = cancelled; updated_at_ms = now }

unfoldable pub cancel : String → ℕ → Act EventStore (Option EventRecord)
cancel id now s = elim (get id s) [
  | none ↦ (none, s, [])
  | some event ↦ (
    some (cancel_event now event),
    set id (cancel_event now event) s,
    record { level = "warn"; target = some id; message = "event cancelled"; data_of = none } ∷ [],
  )
]
