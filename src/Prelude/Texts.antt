-- ===== src/Prelude/Texts.antt =====
-- `String.prototype.trim`, `length` and the identifier pattern of the gateway.
use Prim.Native.Nat.{ℕ, ◌+◌, ◌-◌, ◌/◌, ◌%◌}
use mathlib.Core.List.{List}
use Prim.Native.Char.{code}
use Prim.Native.String.{String, [], ◌∷◌}
use mathlib.Core.Path.{◌≡◌, refl}
use mathlib.Core.Bool.{Bool, true, false, ◌&&◌, ◌||◌}
use native.Mathlib.Omega.{arith}
use snapdragon.Prelude.Tests.{ltb, leb, eqb, if◌then◌else◌}

-- ECMAScript's white space and line terminators, which `trim` removes.
unfoldable pub is_space : ℕ → Bool
is_space c =
    leb 9 c && leb c 13
    || eqb c 32
    || eqb c 0xa0
    || eqb c 0x1680
    || leb 0x2000 c && leb c 0x200a
    || eqb c 0x2028
    || eqb c 0x2029
    || eqb c 0x202f
    || eqb c 0x205f
    || eqb c 0x3000
    || eqb c 0xfeff

-- `!s`
abbrev pub is_empty : String → Bool
is_empty [] = true
is_empty (c ∷ s) = false

unfoldable pub trim_start : String → String
trim_start [] = []
trim_start (c ∷ s) = let rest = trim_start s in if is_space (code c) then rest else c ∷ s

unfoldable pub trim_end : String → String
trim_end [] = []
trim_end (c ∷ s) =
    let rest = trim_end s in if is_space (code c) && is_empty rest then [] else c ∷ rest

unfoldable pub trim : String → String
unfolding trim_start trim_end is_space
trim s = trim_end (trim_start s)

-- `s.length`, in UTF-16 units
unfoldable pub utf16_length : String → ℕ
utf16_length [] = 0
utf16_length (c ∷ s) = (if ltb 0xffff (code c) then 2 else 1) + utf16_length s

-- One character of `[A-Za-z0-9._:-]`.
unfoldable pub is_id_char : ℕ → Bool
is_id_char c =
    leb b'A' c && leb c b'Z'
    || leb b'a' c && leb c b'z'
    || leb b'0' c && leb c b'9'
    || eqb c b'.'
    || eqb c b'_'
    || eqb c b':'
    || eqb c b'-'

unfoldable pub all_id_chars : String → Bool
unfolding is_id_char
all_id_chars [] = true
all_id_chars (c ∷ s) = is_id_char (code c) && all_id_chars s

-- `/^[A-Za-z0-9._:-]+$/.test(s)`
unfoldable pub is_id : String → Bool
unfolding all_id_chars
is_id [] = false
is_id (c ∷ s) = all_id_chars (c ∷ s)

trim_runs : trim " \t a b\n" ≡ "a b"
unfolding trim
trim_runs = refl

is_id_runs : (is_id "w-1.x:y_Z" ≡ true) × (is_id "w 1" ≡ false) × (is_id "" ≡ false)
unfolding is_id
is_id_runs = (refl, refl, refl)

trim_end-trim_end : (s : String) → trim_end (trim_end s) ≡ trim_end s
unfolding trim_end
trim_end-trim_end [] = refl
trim_end-trim_end (c ∷ s) = ground (arith, trim_end-trim_end s)

trim_start-trim_end-trim_start :
    (s : String) → trim_start (trim_end (trim_start s)) ≡ trim_end (trim_start s)
unfolding trim_start trim_end
trim_start-trim_end-trim_start [] = refl
trim_start-trim_end-trim_start (c ∷ s) = ground (arith, trim_start-trim_end-trim_start s)

-- Trimming twice is trimming once.
pub trim_idem : (s : String) → trim (trim s) ≡ trim s
unfolding trim
trim_idem s = rw (trim_start-trim_end-trim_start s) (trim_end-trim_end (trim_start s))

id_char_not_space : (c : ℕ) → is_id_char c ≡ true → is_space c ≡ false
unfolding is_id_char is_space
id_char_not_space c h = ground arith

trim_end_of_id : (s : String) → all_id_chars s ≡ true → trim_end s ≡ s
unfolding trim_end all_id_chars
trim_end_of_id [] h = refl
trim_end_of_id (c ∷ s) h = ground (arith, id_char_not_space (code c), trim_end_of_id s)

-- An identifier has no white space to trim.
pub trim_of_is_id : (s : String) → is_id s ≡ true → trim s ≡ s
unfolding trim is_id
trim_of_is_id [] h = refl
trim_of_is_id (c ∷ s) h = ground (arith, id_char_not_space (code c), trim_end_of_id (c ∷ s))

pub is_id_not_empty : (s : String) → is_id s ≡ true → is_empty s ≡ false
unfolding is_id
is_id_not_empty [] h = ground arith
is_id_not_empty (c ∷ s) h = refl

-- The UTF-16 units of a text, by which JavaScript compares texts.
unfoldable pub utf16_units : String → List ℕ
utf16_units [] = List.[]
utf16_units (c ∷ s) =
    let rest = utf16_units s in
    if ltb 0xffff (code c)
    then List.◌∷◌ (0xd800 + (code c - 0x10000) / 0x400)
        (List.◌∷◌ (0xdc00 + (code c - 0x10000) % 0x400) rest)
    else List.◌∷◌ (code c) rest

unfoldable pub units_before : List ℕ → List ℕ → Bool
units_before List.[] List.[] = false
units_before List.[] (List.◌∷◌ d t) = true
units_before (List.◌∷◌ c s) List.[] = false
units_before (List.◌∷◌ c s) (List.◌∷◌ d t) =
    let rest = units_before s t in if ltb c d then true else if ltb d c then false else rest

-- The order of `sort()` with no comparison.
unfoldable pub text_before : String → String → Bool
unfolding utf16_units units_before
text_before s t = units_before (utf16_units s) (utf16_units t)

-- `text.startsWith(start)`
unfoldable pub starts_with : String → String → Bool
starts_with [] t = true
starts_with (c ∷ p) [] = false
starts_with (c ∷ p) (d ∷ t) = eqb (code c) (code d) && starts_with p t
