-- ===== src/Sd/Draft.antt =====
-- packages/sd/src/tui/draft-edit.ts: the text and the cursor of the prompt. The test for a word unit, a
-- regular expression on one UTF-16 unit, is a parameter.
pub mod Inside
pub mod Lines
pub mod Words
mod Tests
use snapdragon.Prelude.{
  ℕ, zero, suc, ◌+◌, ◌-◌, Bool, true, false, not, Option, none, some, List, [], ◌∷◌, ◌++◌, ltb, eqb,
  if◌then◌else◌, length, take, drop, get_elem?,
}
use snapdragon.Prelude.Int.{ℤ, pos, negsuc}
use snapdragon.Prelude.Units.{Units}

-- A cursor may be negative or past the end; the operations clamp it.
pub record DraftState : Type 0 where
  pub text : Units
  pub cursor : ℤ

unfoldable pub clamp_cursor : Units → ℤ → ℕ
clamp_cursor s (negsuc n) = 0
clamp_cursor s (pos n) = if ltb (length s) n then length s else n

unfoldable pub insert_at : DraftState → Units → DraftState
unfolding clamp_cursor
insert_at s chunk =
    let cursor = clamp_cursor s.text s.cursor in
    record {
      text = take cursor s.text ++ (chunk ++ drop cursor s.text);
      cursor = pos (cursor + length chunk);
    }

unfoldable pub delete_backward_char : DraftState → DraftState
unfolding clamp_cursor
delete_backward_char s =
    let cursor = clamp_cursor s.text s.cursor in
    if eqb cursor 0
    then s
    else record { text = take (cursor - 1) s.text ++ drop cursor s.text; cursor = pos (cursor - 1) }

unfoldable pub delete_forward_char : DraftState → DraftState
unfolding clamp_cursor
delete_forward_char s =
    let cursor = clamp_cursor s.text s.cursor in
    if ltb cursor (length s.text)
    then record { text = take cursor s.text ++ drop (cursor + 1) s.text; cursor = pos cursor }
    else s

abbrev pub pred : ℤ → ℤ
pred (pos zero) = negsuc 0
pred (pos (suc n)) = pos n
pred (negsuc n) = negsuc (suc n)

abbrev pub succ : ℤ → ℤ
succ (pos n) = pos (suc n)
succ (negsuc zero) = pos 0
succ (negsuc (suc n)) = negsuc n

unfoldable pub move_char_left : DraftState → DraftState
unfolding clamp_cursor
move_char_left s = record s { cursor = pos (clamp_cursor s.text (pred s.cursor)) }

unfoldable pub move_char_right : DraftState → DraftState
unfolding clamp_cursor
move_char_right s = record s { cursor = pos (clamp_cursor s.text (succ s.cursor)) }

-- `while (i > 0 && test(text[i - 1])) i -= 1`
unfoldable pub back_while : (Option ℕ → Bool) → Units → ℕ → ℕ
back_while test s zero = zero
back_while test s (suc i) =
    let rest = back_while test s i in if test (get_elem? s i) then rest else suc i

-- `while (i < text.length && test(text[i])) i += 1`, with `text.length - i` rounds to go
unfoldable pub on_while : (Option ℕ → Bool) → Units → ℕ → ℕ → ℕ
on_while test s zero i = i
on_while test s (suc rounds) i =
    let rest = on_while test s rounds (i + 1) in if test (get_elem? s i) then rest else i

-- `ch !== '\n'`
abbrev pub is_in_line : Option ℕ → Bool
is_in_line none = true
is_in_line (some c) = not (eqb c b'\n')

unfoldable pub move_line_start : DraftState → DraftState
unfolding clamp_cursor back_while
move_line_start s = record s {
  cursor = pos (back_while is_in_line s.text (clamp_cursor s.text s.cursor));
}

unfoldable pub move_line_end : DraftState → DraftState
unfolding clamp_cursor on_while
move_line_end s =
    let cursor = clamp_cursor s.text s.cursor in
    record s { cursor = pos (on_while is_in_line s.text (length s.text - cursor) cursor) }

pub record Location : Type 0 where
  pub line : ℕ
  pub column : ℕ

-- The loop of `locateCursor`: the units that are left before the cursor, their index, the line and where
-- it starts.
unfoldable pub locate_from : Units → ℕ → ℕ → ℕ → ℕ × ℕ
locate_from [] i line line_start = (line, line_start)
locate_from (c ∷ s) i line line_start =
    let next_line = locate_from s (i + 1) (line + 1) (i + 1) in
    let same_line = locate_from s (i + 1) line line_start in
    if eqb c b'\n' then next_line else same_line

unfoldable pub locate_cursor : Units → ℤ → Location
unfolding clamp_cursor locate_from
locate_cursor s cursor =
    let c = clamp_cursor s cursor in
    let (line, line_start) = locate_from (take c s) 0 0 0 in
    record { line = line; column = c - line_start }

module _ (is_word : ℕ → Bool) where
  abbrev pub is_word_char : Option ℕ → Bool
  is_word_char none = false
  is_word_char (some c) = is_word c

  abbrev pub is_other : Option ℕ → Bool
  is_other ch = not (is_word_char ch)

  unfoldable pub word_boundary_left : Units → ℤ → ℕ
  unfolding clamp_cursor back_while
  word_boundary_left s cursor =
      back_while is_word_char s (back_while is_other s (clamp_cursor s cursor))

  unfoldable pub word_boundary_right : Units → ℤ → ℕ
  unfolding clamp_cursor on_while
  word_boundary_right s cursor =
      let i = clamp_cursor s cursor in
      let j = on_while is_other s (length s - i) i in on_while is_word_char s (length s - j) j

  unfoldable pub delete_backward_word : DraftState → DraftState
  unfolding clamp_cursor word_boundary_left
  delete_backward_word s =
      let cursor = clamp_cursor s.text s.cursor in
      let target = word_boundary_left s.text (pos cursor) in
      if eqb cursor 0
      then s
      else record { text = take target s.text ++ drop cursor s.text; cursor = pos target }

  unfoldable pub move_word_left : DraftState → DraftState
  unfolding word_boundary_left
  move_word_left s = record s { cursor = pos (word_boundary_left s.text s.cursor) }

  unfoldable pub move_word_right : DraftState → DraftState
  unfolding word_boundary_right
  move_word_right s = record s { cursor = pos (word_boundary_right s.text s.cursor) }
