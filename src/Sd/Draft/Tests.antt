-- ===== src/Sd/Draft/Tests.antt =====
-- Runs of the prompt, and the theorems at concrete inputs.
use snapdragon.Prelude.{ℕ, ◌≡◌, refl, Bool, not, ◌||◌, List, [], ◌∷◌, eqb, arith}
use snapdragon.Prelude.Int.{pos}
use snapdragon.Prelude.Units.{Units}
use snapdragon.Sd.Draft.{
  DraftState, clamp_cursor, insert_at, word_boundary_left, locate_cursor, is_word_char, is_other,
}
use snapdragon.Sd.Draft.Inside.{
  IsInside, Edit, inserts, deletes_word, goes_left, deletes_backward, edit_all, edit_all-IsInside,
  delete_times,
}
use snapdragon.Sd.Draft.Lines.{delete_times-insert_at}
use snapdragon.Sd.Draft.Words.{IsRun, word_boundary_left-IsRun}

-- Spaces and newlines are outside words.
abbrev is_letter : ℕ → Bool
is_letter c = not (eqb c b' ' || eqb c b'\n')

-- Two lines, `ab` and `c d`.
abbrev two_lines : Units
two_lines = b'a' ∷ b'b' ∷ b'\n' ∷ b'c' ∷ b' ' ∷ b'd' ∷ []

abbrev draft : DraftState
draft = record { text = two_lines; cursor = pos 5 }

draft-IsInside : IsInside draft
draft-IsInside = record { at = 5; cursor = refl; bound = omega arith }

located_at :
    ((locate_cursor two_lines (pos 5)).line ≡ 1) × ((locate_cursor two_lines (pos 5)).column ≡ 2)
unfolding locate_cursor
located_at = (refl, refl)

word_left : word_boundary_left is_letter two_lines (pos 5) ≡ 3
unfolding word_boundary_left
word_left = refl

abbrev edits : List Edit
edits = inserts (b'x' ∷ []) ∷ goes_left ∷ deletes_word ∷ deletes_backward ∷ []

edit_all-IsInside_example : IsInside (edit_all is_letter edits draft)
edit_all-IsInside_example = edit_all-IsInside is_letter edits draft draft-IsInside

delete_times-insert_at_example : delete_times 2 (insert_at draft (b'x' ∷ b'y' ∷ [])) ≡ draft
delete_times-insert_at_example = delete_times-insert_at draft (b'x' ∷ b'y' ∷ []) draft-IsInside

word_boundary_left-IsRun_example :
    (middle : ℕ) × IsRun
      (is_word_char is_letter)
      two_lines
      (word_boundary_left is_letter two_lines (pos 5))
      middle
    × IsRun (is_other is_letter) two_lines middle (clamp_cursor two_lines (pos 5))
word_boundary_left-IsRun_example = word_boundary_left-IsRun is_letter two_lines (pos 5)
