-- ===== src/Ui.antt =====
-- packages/ui/src: the world of user-interface components, changed by events. The systems are those
-- of the default registry. `cloneData` copies a value, which here is the value itself; listeners are
-- code of the caller, and the order of `localeCompare` is an argument.
pub mod Objects
pub mod Invariant
pub mod Patches
mod Tests
use Prim.Native.String
use snapdragon.Prelude.{
  ℕ, ◌+◌, String, Bool, true, false, not, ◌&&◌, Option, none, some, List, [], ◌∷◌, ◌++◌, ltb,
  if◌then◌else◌, or_else, length, filter, map, slice_last, same_text, ◌==◌,
}
use snapdragon.Prelude.Int.{ℤ, pos, ltb_ℤ}
use snapdragon.Prelude.Json.{Json, Fields, end}
use snapdragon.Prelude.Maps.{Map, get, set, delete, values}
use snapdragon.Prelude.Sorting.{sort}
use snapdragon.Prelude.Texts.{is_empty, trim}
use snapdragon.Gateway.Effects.{Outcome, throws, returns}
use snapdragon.Ui.Objects.{merge_json}

pub record Descriptor : Type 0 where
  pub id : String
  pub kind : String
  pub slot : String
  pub title : Option String
  pub order : Option ℤ
  pub visible : Option Bool
  pub props : Option Fields

pub data LogLevel : Type 0 where
  debug info warn error : LogLevel

pub record LogEntry : Type 0 where
  pub id : String
  pub level : LogLevel
  pub message : String
  pub timestamp : String
  pub source : Option String
  pub data_of : Option Fields

pub record World : Type 0 where
  pub components : Map Descriptor
  pub states : Map Fields
  pub focus_id : Option String
  pub log : List LogEntry
  pub revision : ℕ

abbrev pub new_world : World
new_world = record { components = []; states = []; focus_id = none; log = []; revision = 0 }

abbrev pub max_log_entries : ℕ
max_log_entries = 500

pub data UiEvent : Type 0 where
  registers : Descriptor → Option Fields → UiEvent
  removes : String → UiEvent
  patches : String → Fields → Option Bool → UiEvent
  clears : String → UiEvent
  focuses : Option String → UiEvent
  logs : LogEntry → UiEvent
  resets : UiEvent

unfoldable pub validate_descriptor : Descriptor → Outcome (Unit {0})
validate_descriptor d =
    if is_empty (trim d.id)
    then throws "UI component id is required"
    else if is_empty (trim d.kind)
    then throws "UI component kind is required"
    else if is_empty (trim d.slot)
    then throws "UI component slot is required"
    else returns tt

-- What a method leaves, also if it throws.
abbrev pub Changed : Type 0
Changed = Outcome (Unit {0}) × World

unfoldable pub register : Descriptor → Fields → World → Changed
unfolding validate_descriptor
register d state w = elim (validate_descriptor d) [
  | throws message ↦ (throws message, w)
  | returns _ ↦ (
    returns tt,
    record w { components = set d.id d w.components; states = set d.id state w.states },
  )
]

unfoldable pub remove : String → World → World
remove id w = record w {
  components = delete id w.components;
  states = delete id w.states;
  focus_id = if same_text w.focus_id (some id) then none else w.focus_id;
}

unfoldable pub patch : String → Fields → Bool → World → Changed
unfolding merge_json
patch id change replace w = elim (get id w.components) [
  | none ↦ (throws (String.◌++◌ "Cannot patch missing UI component: " id), w)
  | some _ ↦
      let next = if replace then change else merge_json (or_else (get id w.states) end) change in
      (returns tt, record w { states = set id next w.states })
]

unfoldable pub clear_state : String → World → Changed
clear_state id w = elim (get id w.components) [
  | none ↦ (throws (String.◌++◌ "Cannot clear missing UI component: " id), w)
  | some _ ↦ (returns tt, record w { states = set id end w.states })
]

-- An id that is undefined or empty takes the focus away from any component.
unfoldable pub set_focus : Option String → World → Changed
set_focus none w = (returns tt, record w { focus_id = none })
set_focus (some id) w =
    if is_empty id
    then (returns tt, record w { focus_id = some id })
    else elim (get id w.components) [
      | none ↦ (throws (String.◌++◌ "Cannot focus missing UI component: " id), w)
      | some _ ↦ (returns tt, record w { focus_id = some id })
    ]

unfoldable pub append_bounded_log : List LogEntry → LogEntry → ℕ → List LogEntry
append_bounded_log log entry max_entries =
    let next = log ++ entry ∷ [] in
    if ltb max_entries (length next) then slice_last max_entries next else next

unfoldable pub append_log : LogEntry → World → World
unfolding append_bounded_log
append_log entry w = record w { log = append_bounded_log w.log entry max_log_entries }

unfoldable pub reset : World → World
reset w = record w { components = []; states = []; focus_id = none; log = [] }

-- `defaultUiSystem.apply`
unfoldable pub apply_default : UiEvent → World → Changed
unfolding register remove patch clear_state set_focus append_log reset
apply_default (registers d state) w = register d (or_else state end) w
apply_default (removes id) w = (returns tt, remove id w)
apply_default (patches id change replace) w = patch id change (or_else replace false) w
apply_default (clears id) w = clear_state id w
apply_default (focuses id) w = set_focus id w
apply_default (logs entry) w = (returns tt, append_log entry w)
apply_default resets w = (returns tt, reset w)

-- `#touch`, of a world that no listener watches
abbrev pub touch : World → World
touch w = record w { revision = w.revision + 1 }

abbrev pub touch_after : Changed → Changed
touch_after (throws message, w) = (throws message, w)
touch_after (returns _, w) = (returns tt, touch w)

unfoldable pub apply : UiEvent → World → Changed
unfolding apply_default
apply event w = touch_after (apply_default event w)

abbrev pub and_then : Changed → (World → Changed) → Changed
and_then (throws message, w) rest = (throws message, w)
and_then (returns _, w) rest = rest w

-- The loop of `applyMany`: an event that throws ends it, with what came before done.
unfoldable pub apply_each : List UiEvent → World → Changed
unfolding apply_default
apply_each [] w = (returns tt, w)
apply_each (event ∷ events) w = and_then (apply_default event w) (apply_each events)

unfoldable pub apply_many : List UiEvent → World → Changed
unfolding apply_each
apply_many [] w = (returns tt, w)
apply_many (event ∷ events) w = touch_after (apply_each (event ∷ events) w)

pub record ComponentSnapshot : Type 0 where
  pub descriptor : Descriptor
  pub state : Fields

abbrev pub snapshot_of : World → Descriptor → ComponentSnapshot
snapshot_of w d = record { descriptor = d; state = or_else (get d.id w.states) end }

unfoldable pub component : String → World → Option ComponentSnapshot
component id w = elim (get id w.components) [
  | none ↦ none
  | some d ↦ some (record { descriptor = d; state = or_else (get id w.states) end })
]

unfoldable pub component_state : String → World → Fields
component_state id w = or_else (get id w.states) end

abbrev pub is_shown : String → Descriptor → Bool
is_shown slot d = (d.slot == slot) && or_else d.visible true

-- `compareDescriptors`: which of two comes first
abbrev pub is_before : (String → String → Bool) → Descriptor → Descriptor → Bool
is_before before a b =
    if ltb_ℤ (or_else a.order (pos 0)) (or_else b.order (pos 0))
    then true
    else if ltb_ℤ (or_else b.order (pos 0)) (or_else a.order (pos 0))
    then false
    else before a.id b.id

unfoldable pub components_in_slot :
    (String → String → Bool) → String → World → List ComponentSnapshot
components_in_slot before slot w =
    map (snapshot_of w) (sort (is_before before) (filter (is_shown slot) (values w.components)))

pub record UiSnapshot : Type 0 where
  pub revision : ℕ
  pub components : Map ComponentSnapshot
  pub focus_id : Option String
  pub log : List LogEntry

unfoldable pub snapshot : World → UiSnapshot
snapshot w = record {
  revision = w.revision;
  components = map (λ d. (d.id, snapshot_of w d)) (values w.components);
  focus_id = w.focus_id;
  log = w.log;
}

-- What `uiLog` may be given; `fresh` is a generated id and `now` the time of the clock.
unfoldable pub ui_log :
    LogLevel
    → String
    → Option String
    → Option String
    → Option String
    → Option Fields
    → String
    → String
    → LogEntry
ui_log level message id timestamp source data_of fresh now = record {
  id = or_else id fresh;
  level = level;
  message = message;
  timestamp = or_else timestamp now;
  source = source;
  data_of = data_of;
}
