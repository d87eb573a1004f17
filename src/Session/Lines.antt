-- ===== src/Session/Lines.antt =====
-- The counters of a session from the raw lines of its file: `readRecordStats` in
-- packages/session/src/records.ts, which looks for texts in a line and does not parse it. Numbers are those
-- that a double holds exactly.
use snapdragon.Prelude.{
  ℕ, ◌+◌, ◌-◌, ◌*◌, ◌≡◌, refl, String, Bool, true, false, ◌&&◌, ◌||◌, inl, inr, Option, none, some,
  Option-cases, or_else, List, [], ◌∷◌, ◌++◌, leb, eqb, if◌then◌else◌, arith,
}
use snapdragon.Prelude.Texts.{is_space}
use snapdragon.Prelude.Units.{Units, units}
use snapdragon.Session.Packing.{max}

-- What follows a text at the start of a line, if it stands there.
unfoldable pub after_text : Units → Units → Option Units
after_text [] line = some line
after_text (c ∷ pattern) [] = none
after_text (c ∷ pattern) (d ∷ line) =
    let rest = after_text pattern line in if eqb c d then rest else none

-- `line.includes(pattern)`
unfoldable pub line_includes : Units → Units → Bool
unfolding after_text
line_includes [] pattern = elim (after_text pattern []) [ none ↦ false | some rest ↦ true ]
line_includes (d ∷ line) pattern =
    let later = line_includes line pattern in
    elim (after_text pattern (d ∷ line)) [ none ↦ later | some rest ↦ true ]

abbrev pub quoted : String → Units
quoted field = units "\"" ++ (units field ++ units "\"")

unfoldable pub is_message_line : Units → Bool
unfolding line_includes units
is_message_line line =
    line_includes line (units "\"type\":\"message\"")
    || line_includes line (units "\"type\": \"message\"")

unfoldable pub is_chunk_line : Units → Bool
unfolding line_includes units
is_chunk_line line =
    line_includes line (units "\"type\":\"context_chunk\"")
    || line_includes line (units "\"type\": \"context_chunk\"")

abbrev pub is_digit : ℕ → Bool
is_digit c = leb b'0' c && leb c b'9'

-- `(\d+)`: the value of the digits at the start, if there is one.
unfoldable pub digits_from : ℕ → Units → ℕ
digits_from n [] = n
digits_from n (c ∷ line) =
    let rest = digits_from (10 * n + (c - b'0')) line in if is_digit c then rest else n

abbrev pub digit_value : Units → Option ℕ
digit_value [] = none
digit_value (c ∷ line) = if is_digit c then some (digits_from 0 (c ∷ line)) else none

-- `\s*`
unfoldable pub skip_space : Units → Units
unfolding is_space
skip_space [] = []
skip_space (c ∷ line) = let rest = skip_space line in if is_space c then rest else c ∷ line

-- `"field":(\d+)` and `"field"\s*:\s*(\d+)`, at the start of a line
unfoldable pub compact_at : String → Units → Option ℕ
unfolding after_text units digits_from
compact_at field line = elim (after_text (quoted field ++ units ":") line) [
  | none ↦ none
  | some rest ↦ digit_value rest
]

unfoldable pub spaced_at : String → Units → Option ℕ
unfolding after_text units skip_space digits_from
spaced_at field line = elim (after_text (quoted field) line) [
  | none ↦ none
  | some rest ↦ elim (after_text (units ":") (skip_space rest)) [
    | none ↦ none
    | some value ↦ digit_value (skip_space value)
  ]
]

-- The first place where an expression matches.
unfoldable pub search_line : (Units → Option ℕ) → Units → Option ℕ
search_line match_at [] = match_at []
search_line match_at (c ∷ line) =
    let later = search_line match_at line in
    elim (match_at (c ∷ line)) [ none ↦ later | some n ↦ some n ]

unfoldable pub number_field : Units → String → ℕ
unfolding search_line compact_at spaced_at
number_field line field = elim (search_line (compact_at field) line) [
  | some n ↦ n
  | none ↦ or_else (search_line (spaced_at field) line) 0
]

pub record RecordStats : Type 0 where
  pub next_store_id : ℕ
  pub next_chunk_id : ℕ
  pub message_count : ℕ

unfoldable pub update_stats : RecordStats → Units → RecordStats
unfolding is_message_line is_chunk_line number_field
update_stats s line =
    if is_message_line line
    then record s {
      message_count = s.message_count + 1;
      next_store_id = max s.next_store_id (number_field line "store_id" + 1);
    }
    else (if is_chunk_line line
        then record s { next_chunk_id = max s.next_chunk_id (number_field line "chunk_id" + 1) }
        else s)

abbrev pub stats_from : RecordStats → List Units → RecordStats
stats_from s [] = s
stats_from s (line ∷ lines) = stats_from (update_stats s line) lines

-- `readRecordStats`
unfoldable pub read_record_stats : List Units → RecordStats
unfolding update_stats
read_record_stats lines =
    stats_from (record { next_store_id = 1; next_chunk_id = 1; message_count = 0 }) lines

after_text-append : (pattern rest : Units) → after_text pattern (pattern ++ rest) ≡ some rest
unfolding after_text
after_text-append [] rest = refl
after_text-append (c ∷ pattern) rest = ground (arith, after_text-append pattern rest)

-- A text is found wherever it stands in a line.
pub line_includes-append :
    (before pattern rest : Units) → line_includes (before ++ (pattern ++ rest)) pattern ≡ true
unfolding line_includes
line_includes-append [] [] [] = refl
line_includes-append [] [] (c ∷ rest) = refl
line_includes-append [] (c ∷ pattern) rest =
    rw (line_includes, after_text-append (c ∷ pattern) rest) refl
line_includes-append (b ∷ before) pattern rest =
    elim (Option-cases (after_text pattern (b ∷ (before ++ (pattern ++ rest))))) [
      | inl e ↦ rw (line_includes, e) (line_includes-append before pattern rest)
      | inr (left, e) ↦ rw (line_includes, e) refl
    ]
