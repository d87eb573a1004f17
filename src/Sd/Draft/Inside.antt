-- ===== src/Sd/Draft/Inside.antt =====
-- The cursor of the prompt stays in the text (packages/sd/src/tui/draft-edit.ts).
use snapdragon.Prelude.{
  ℕ, zero, suc, ◌+◌, ◌-◌, ◌≤◌, ◌≡◌, refl, Bool, Bool-cases, inl, inr, Option, List, [], ◌∷◌, ◌++◌,
  ltb, eqb, length, length-append, length-take, take, drop, arith,
}
use snapdragon.Prelude.Int.{ℤ, pos, negsuc}
use snapdragon.Prelude.Units.{Units}
use snapdragon.Sd.Draft.{
  DraftState, clamp_cursor, insert_at, delete_backward_char, delete_forward_char, move_char_left,
  move_char_right, back_while, on_while, is_in_line, move_line_start, move_line_end, pred, succ,
  word_boundary_left, word_boundary_right, is_word_char, is_other, delete_backward_word,
  move_word_left, move_word_right,
}

pub record IsInside (s : DraftState) : Type 0 where
  pub at : ℕ
  pub cursor : s.cursor ≡ pos at
  pub bound : at ≤ length s.text

pub clamp_cursor-le : (s : Units) (cursor : ℤ) → clamp_cursor s cursor ≤ length s
unfolding clamp_cursor
clamp_cursor-le s (pos n) = ground arith
clamp_cursor-le s (negsuc n) = omega arith

-- A cursor in the text is not changed.
pub clamp_cursor-same : (s : Units) (n : ℕ) → n ≤ length s → clamp_cursor s (pos n) ≡ n
unfolding clamp_cursor
clamp_cursor-same s n h = ground arith

pub back_while-le : (test : Option ℕ → Bool) (s : Units) (i : ℕ) → back_while test s i ≤ i
unfolding back_while
back_while-le test s zero = omega arith
back_while-le test s (suc i) = ground (arith, back_while-le test s i)

pub on_while-le :
    (test : Option ℕ → Bool) (s : Units) (rounds i : ℕ) → on_while test s rounds i ≤ i + rounds
unfolding on_while
on_while-le test s zero i = omega arith
on_while-le test s (suc rounds) i = ground (arith, on_while-le test s rounds (i + 1))

on_while-length :
    (test : Option ℕ → Bool) (s : Units) (i : ℕ)
    → i ≤ length s
    → on_while test s (length s - i) i ≤ length s
on_while-length test s i h = omega (arith, on_while-le test s (length s - i) i)

-- The keys of the prompt.
pub data Edit : Type 0 where
  inserts : Units → Edit
  deletes_backward deletes_forward deletes_word : Edit
  goes_left goes_right goes_word_left goes_word_right goes_to_start goes_to_end : Edit

module _ (is_word : ℕ → Bool) where
  abbrev pub edit : Edit → DraftState → DraftState
  edit (inserts chunk) s = insert_at s chunk
  edit deletes_backward s = delete_backward_char s
  edit deletes_forward s = delete_forward_char s
  edit deletes_word s = delete_backward_word is_word s
  edit goes_left s = move_char_left s
  edit goes_right s = move_char_right s
  edit goes_word_left s = move_word_left is_word s
  edit goes_word_right s = move_word_right is_word s
  edit goes_to_start s = move_line_start s
  edit goes_to_end s = move_line_end s

  abbrev pub edit_all : List Edit → DraftState → DraftState
  edit_all [] s = s
  edit_all (e ∷ edits) s = edit_all edits (edit e s)

  word_boundary_right-le :
      (s : Units) (cursor : ℤ) → word_boundary_right is_word s cursor ≤ length s
  unfolding word_boundary_right
  word_boundary_right-le s cursor =
      let i = clamp_cursor s cursor in
      let first = on_while-length (is_other is_word) s i (clamp_cursor-le s cursor) in
      on_while-length (is_word_char is_word) s _ first

  pub word_boundary_left-le :
      (s : Units) (cursor : ℤ) → word_boundary_left is_word s cursor ≤ clamp_cursor s cursor
  unfolding word_boundary_left
  word_boundary_left-le s cursor =
      let i = clamp_cursor s cursor in
      let first = back_while-le (is_other is_word) s i in
      omega
        (arith, first, back_while-le (is_word_char is_word) s (back_while (is_other is_word) s i))

  cut-length : (s : Units) (i j : ℕ) → i ≤ j → j ≤ length s → i ≤ length (take i s ++ drop j s)
  cut-length s i j h k = omega (arith, length-append (take i s) (drop j s), length-take i s, h, k)

  -- Every key leaves the cursor in the text.
  edit-IsInside : (e : Edit) (s : DraftState) → IsInside s → IsInside (edit e s)
  unfolding insert_at delete_backward_char delete_forward_char delete_backward_word move_char_left
      move_char_right move_word_left move_word_right move_line_start move_line_end
  edit-IsInside (inserts chunk) s h = record {
    at = clamp_cursor s.text s.cursor + length chunk;
    cursor = refl;
    bound =
        let c = clamp_cursor s.text s.cursor in
        omega (
          arith,
          clamp_cursor-le s.text s.cursor,
          length-take c s.text,
          length-append (take c s.text) (chunk ++ drop c s.text),
          length-append chunk (drop c s.text),
        );
  }
  edit-IsInside deletes_backward s h =
      let c = clamp_cursor s.text s.cursor in
      elim (Bool-cases (eqb c 0)) [
        | inl e ↦ rw (delete_backward_char, e) h
        | inr e ↦
            rw (delete_backward_char, e)
              (record {
                at = c - 1;
                cursor = refl;
                bound = cut-length s.text (c - 1) c (omega arith) (clamp_cursor-le s.text s.cursor);
              })
      ]
  edit-IsInside deletes_forward s h =
      let c = clamp_cursor s.text s.cursor in
      elim (Bool-cases (ltb c (length s.text))) [
        | inl e ↦
            rw (delete_forward_char, e)
              (record {
                at = c;
                cursor = refl;
                bound = cut-length s.text c (c + 1) (omega arith) (ground arith);
              })
        | inr e ↦ rw (delete_forward_char, e) h
      ]
  edit-IsInside deletes_word s h =
      let c = clamp_cursor s.text s.cursor in
      let inside = clamp_cursor-le s.text s.cursor in
      let same = clamp_cursor-same s.text c inside in
      let before = word_boundary_left-le s.text (pos c) in
      elim (Bool-cases (eqb c 0)) [
        | inl e ↦ rw (delete_backward_word, e) h
        | inr e ↦
            rw (delete_backward_word, e)
              (record {
                at = word_boundary_left is_word s.text (pos c);
                cursor = refl;
                bound = cut-length s.text _ c (omega (arith, same, before)) inside;
              })
      ]
  edit-IsInside goes_left s h = record {
    at = _;
    cursor = refl;
    bound = clamp_cursor-le s.text (pred s.cursor);
  }
  edit-IsInside goes_right s h = record {
    at = _;
    cursor = refl;
    bound = clamp_cursor-le s.text (succ s.cursor);
  }
  edit-IsInside goes_word_left s h = record {
    at = _;
    cursor = refl;
    bound = omega (arith, word_boundary_left-le s.text s.cursor, clamp_cursor-le s.text s.cursor);
  }
  edit-IsInside goes_word_right s h = record {
    at = _;
    cursor = refl;
    bound = word_boundary_right-le s.text s.cursor;
  }
  edit-IsInside goes_to_start s h = record {
    at = _;
    cursor = refl;
    bound = omega (
      arith,
      back_while-le is_in_line s.text (clamp_cursor s.text s.cursor),
      clamp_cursor-le s.text s.cursor,
    );
  }
  edit-IsInside goes_to_end s h = record {
    at = _;
    cursor = refl;
    bound = on_while-length is_in_line s.text _ (clamp_cursor-le s.text s.cursor);
  }

  -- After any sequence of keys the cursor is in the text, if it was before.
  pub edit_all-IsInside :
      (edits : List Edit) (s : DraftState) → IsInside s → IsInside (edit_all edits s)
  edit_all-IsInside [] s h = h
  edit_all-IsInside (e ∷ edits) s h = edit_all-IsInside edits (edit e s) (edit-IsInside e s h)

-- What was typed can be taken back: deleting backward as often as there are units in it gives the draft
-- from before.
abbrev pub delete_times : ℕ → DraftState → DraftState
delete_times zero s = s
delete_times (suc n) s = delete_times n (delete_backward_char s)
