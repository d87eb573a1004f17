-- ===== src/Prelude/Json.antt =====
-- Values of type `unknown`: the stores keep them and hand them back, and never look inside.
use Prim.Native.String.{String}
use mathlib.Core.Bool.{Bool}
use mathlib.Core.Option.{Option, none, some}
use snapdragon.Prelude.Int.{ℤ}

mutual
  pub data Json : Type 0 where
    null : Json
    bool : Bool → Json
    num : ℤ → Json
    str : String → Json
    arr : Items → Json
    obj : Fields → Json

  pub data Items : Type 0 where
    nil : Items
    cons : Json → Items → Items

  pub data Fields : Type 0 where
    end : Fields
    field : String → Json → Fields → Fields

-- `value ?? {}`
abbrev pub or_empty_object : Option Json → Json
or_empty_object none = obj end
or_empty_object (some null) = obj end
or_empty_object (some v) = v
