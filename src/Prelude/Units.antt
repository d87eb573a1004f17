-- ===== src/Prelude/Units.antt =====
-- Texts by their UTF-16 units, where the source measures and cuts them: `length`, `slice`, `trim`,
-- `join`, iteration by code points, and numbers as text.
use Prim.Native.Nat.{ℕ, zero, suc, ◌+◌, ◌/◌, ◌%◌, ◌≤◌}
use Prim.Native.String.{String}
use mathlib.Core.Path.{◌≡◌, refl}
use mathlib.Core.Bool.{Bool, true, false, ◌&&◌}
use mathlib.Core.List.{List, [], ◌∷◌, ◌++◌}
use native.Mathlib.Omega.{arith}
use snapdragon.Prelude.Tests.{ltb, leb, if◌then◌else◌}
use snapdragon.Prelude.Lists.{length}
use snapdragon.Prelude.Texts.{is_space, utf16_units}

abbrev pub Units : Type 0
Units = List ℕ

unfoldable pub units : String → Units
unfolding utf16_units
units s = utf16_units s

abbrev pub no_units : Units → Bool
no_units [] = true
no_units (c ∷ s) = false

unfoldable pub trim_start : Units → Units
unfolding is_space
trim_start [] = []
trim_start (c ∷ s) = let rest = trim_start s in if is_space c then rest else c ∷ s

unfoldable pub trim_end : Units → Units
unfolding is_space
trim_end [] = []
trim_end (c ∷ s) = let rest = trim_end s in if is_space c && no_units rest then [] else c ∷ rest

unfoldable pub trim : Units → Units
unfolding trim_start trim_end
trim s = trim_end (trim_start s)

-- Trimming makes no text longer.
pub length-trim_end-le : (s : Units) → length (trim_end s) ≤ length s
unfolding trim_end
length-trim_end-le [] = omega arith
length-trim_end-le (c ∷ s) = ground (arith, length-trim_end-le s)

-- `parts.join(separator)`
unfoldable pub join : Units → List Units → Units
join separator [] = []
join separator (p ∷ []) = p
join separator (p ∷ q ∷ parts) = p ++ (separator ++ join separator (q ∷ parts))

-- `[...text]`: a high and a low surrogate are one code point.
abbrev pub is_high : ℕ → Bool
is_high c = leb 0xd800 c && leb c 0xdbff

abbrev pub is_low : ℕ → Bool
is_low c = leb 0xdc00 c && leb c 0xdfff

abbrev pub glue : ℕ → List Units → List Units
glue c [] = (c ∷ []) ∷ []
glue c ([] ∷ points) = (c ∷ []) ∷ points
glue c ((d ∷ p) ∷ points) =
    if is_high c && is_low d then (c ∷ d ∷ p) ∷ points else (c ∷ []) ∷ (d ∷ p) ∷ points

unfoldable pub code_points : Units → List Units
code_points [] = []
code_points (c ∷ s) = glue c (code_points s)

-- `String(n)`: at most `n + 1` digits, so that is enough rounds.
unfoldable pub digits : ℕ → ℕ → Units → Units
digits zero n out = out
digits (suc fuel) n out =
    let rest = digits fuel (n / 10) ((b'0' + n % 10) ∷ out) in
    if ltb n 10 then (b'0' + n) ∷ out else rest

unfoldable pub decimal : ℕ → Units
unfolding digits
decimal n = digits (suc n) n []

decimal_runs : decimal 1207 ≡ b'1' ∷ b'2' ∷ b'0' ∷ b'7' ∷ []
unfolding decimal
decimal_runs = refl
