-- ===== src/Ui/Objects.antt =====
-- JSON objects of packages/ui/src/index.ts, and `mergeJson`. The order of the keys is that of their
-- insertion.
use snapdragon.Prelude.{String, Option, none, some, if◌then◌else◌, ◌==◌}
use snapdragon.Prelude.Json.{Json, null, bool, num, str, arr, obj, Fields, end, field}

unfoldable pub get_field : String → Fields → Option Json
get_field k end = none
get_field k (field j v o) = let rest = get_field k o in if j == k then some v else rest

unfoldable pub set_field : String → Json → Fields → Fields
set_field k v end = field k v end
set_field k v (field j w o) =
    let rest = set_field k v o in if j == k then field j v o else field j w rest

unfoldable pub delete_field : String → Fields → Fields
delete_field k end = end
delete_field k (field j w o) =
    let rest = delete_field k o in if j == k then rest else field j w rest

-- What an object is merged into, if it is an object.
abbrev pub merged : Option Json → Fields → (Fields → Fields) → Json
merged (some (obj inner)) change merge = obj (merge inner)
merged _ change merge = obj change

-- Null deletes the key, an object is merged into an object, and all else takes the key's place.
unfoldable pub merge_json : Fields → Fields → Fields
unfolding get_field set_field delete_field
merge_json base end = base
merge_json base (field k null rest) = merge_json (delete_field k base) rest
merge_json base (field k (obj change) rest) =
    merge_json
      (set_field k (merged (get_field k base) change (λ inner. merge_json inner change)) base) rest
merge_json base (field k (bool b) rest) = merge_json (set_field k (bool b) base) rest
merge_json base (field k (num n) rest) = merge_json (set_field k (num n) base) rest
merge_json base (field k (str s) rest) = merge_json (set_field k (str s) base) rest
merge_json base (field k (arr items) rest) = merge_json (set_field k (arr items) base) rest
