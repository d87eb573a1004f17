-- ===== src/Ui/Patches.antt =====
-- What merging a patch into the state of a component gives at each key.
use snapdragon.Prelude.{◌≡◌, Option, none, some}
use snapdragon.Prelude.Json.{Json, null, bool, num, str, arr, obj, Fields, end, field}
use snapdragon.Ui.Objects.{get_field, merged, merge_json}

-- No key stands twice in an object.
abbrev pub HasUniqueFields : Fields → Type 0
HasUniqueFields end = Unit
HasUniqueFields (field k v rest) = (get_field k rest ≡ none) × HasUniqueFields rest

-- What a key has after the merge, by what it has in the patch and had before.
abbrev pub patched : Option Json → Option Json → Option Json
patched none old = old
patched (some null) old = none
patched (some (obj change)) old = some (merged old change (λ inner. merge_json inner change))
patched (some (bool b)) old = some (bool b)
patched (some (num n)) old = some (num n)
patched (some (str s)) old = some (str s)
patched (some (arr items)) old = some (arr items)
