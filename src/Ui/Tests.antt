-- ===== src/Ui/Tests.antt =====
-- A world with one component, which is patched and removed.
use mathlib.Core.Path.{◌≡◌, refl}
use snapdragon.Prelude.{none, some, true, List, [], ◌∷◌}
use snapdragon.Prelude.Int.{pos}
use snapdragon.Prelude.Json.{null, num, obj, Fields, end, field}
use snapdragon.Prelude.Maps.{get, set}
use snapdragon.Prelude.Texts.{trim}
use snapdragon.Ui.Objects.{merge_json}
use snapdragon.Ui.{
  Descriptor, UiEvent, registers, patches, focuses, removes, new_world, apply_many, component_state,
}
use snapdragon.Ui.Invariant.{IsValid, new_world-IsValid, apply_many-IsValid}

abbrev panel : Descriptor
panel = record {
  id = "panel";
  kind = "list";
  slot = "side";
  title = none;
  order = none;
  visible = none;
  props = none;
}

abbrev base : Fields
base = field "size" (obj (field "w" (num (pos 1)) (field "h" (num (pos 2)) end))) end

abbrev change : Fields
change = field "size" (obj (field "w" null end)) (field "open" (num (pos 1)) end)

abbrev after_change : Fields
after_change = field "size" (obj (field "h" (num (pos 2)) end)) (field "open" (num (pos 1)) end)

merge_runs : merge_json base change ≡ after_change
unfolding merge_json
merge_runs = refl

abbrev events : List UiEvent
events = registers panel (some base) ∷ focuses (some "panel") ∷ patches "panel" change none ∷ []

events_run : component_state "panel" (apply_many events new_world).1 ≡ after_change
unfolding apply_many component_state get set trim
events_run = refl

-- The last of these throws, since the component is gone.
abbrev more_events : List UiEvent
more_events = removes "panel" ∷ patches "panel" change (some true) ∷ []

apply_many-IsValid_example : IsValid (apply_many more_events (apply_many events new_world).1).1
apply_many-IsValid_example =
    apply_many-IsValid more_events (apply_many events new_world).1
      (apply_many-IsValid events new_world new_world-IsValid)
