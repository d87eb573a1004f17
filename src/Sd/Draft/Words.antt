-- ===== src/Sd/Draft/Words.antt =====
-- Words in the prompt (packages/sd/src/tui/draft-edit.ts).
use snapdragon.Prelude.{
  ℕ, zero, suc, ◌≤◌, ◌<◌, ◌≡◌, refl, sym, ap, ◌∙◌, Bool, true, false, Bool-cases, inl, inr, Option,
  ◌++◌, eqb, length, take, drop, get_elem?, arith,
}
use snapdragon.Prelude.Int.{ℤ, pos}
use snapdragon.Prelude.Units.{Units}
use snapdragon.Sd.Draft.{
  DraftState, clamp_cursor, back_while, word_boundary_left, is_word_char, is_other,
  delete_backward_word, move_word_left,
}
use snapdragon.Sd.Draft.Inside.{clamp_cursor-same, word_boundary_left-le}

-- From `low` up to `high` each unit passes the test, and the one before `low` does not.
abbrev pub IsRun : (Option ℕ → Bool) → Units → ℕ → ℕ → Type 0
IsRun test s low high =
    (low ≤ high)
    × ((i : ℕ) → low ≤ i → i < high → test (get_elem? s i) ≡ true)
    × ((i : ℕ) → low ≡ suc i → test (get_elem? s i) ≡ false)

reach :
    (test : Option ℕ → Bool) (s : Units) (i j : ℕ)
    → test (get_elem? s i) ≡ true
    → (j < i → test (get_elem? s j) ≡ true)
    → j ≤ i
    → test (get_elem? s j) ≡ true
reach test s i j e f h = elim (Bool-cases (eqb j i)) [
  | inl g ↦ let same : j ≡ i = ground arith in ap (λ n. test (get_elem? s n)) same ∙ e
  | inr g ↦ f (ground (arith, h))
]

back_while-IsRun :
    (test : Option ℕ → Bool) (s : Units) (i : ℕ) → IsRun test s (back_while test s i) i
unfolding back_while
back_while-IsRun test s zero =
    (omega arith, λ j h k. absurd (omega arith), λ j e. absurd (omega (arith, e)))
back_while-IsRun test s (suc i) = elim (Bool-cases (test (get_elem? s i))) [
  | inl e ↦
      let (le, all, stop) = back_while-IsRun test s i in
      rw e (omega (arith, le), λ j h k. reach test s i j e (all j h) (omega (arith, k)), stop)
  | inr e ↦ rw e (
    omega arith,
    λ j h k. absurd (omega arith),
    λ j f. let same : i ≡ j = omega (arith, f) in sym (ap (λ n. test (get_elem? s n)) same) ∙ e,
  )
]

-- `wordBoundaryLeft` goes back over units outside words, then over the units of a word, as far as there
-- are any.
pub word_boundary_left-IsRun :
    (is_word : ℕ → Bool) (s : Units) (cursor : ℤ)
    → (middle : ℕ) × IsRun (is_word_char is_word) s (word_boundary_left is_word s cursor) middle
      × IsRun (is_other is_word) s middle (clamp_cursor s cursor)
unfolding word_boundary_left
word_boundary_left-IsRun is_word s cursor =
    let middle = back_while (is_other is_word) s (clamp_cursor s cursor) in
    (
      middle,
      back_while-IsRun (is_word_char is_word) s middle,
      back_while-IsRun (is_other is_word) s (clamp_cursor s cursor),
    )

at_start :
    (is_word : ℕ → Bool) (s : DraftState)
    → clamp_cursor s.text s.cursor ≡ 0
    → delete_backward_word is_word s ≡ s
unfolding delete_backward_word
at_start is_word s e = rw (delete_backward_word, e) refl

word_at :
    (is_word : ℕ → Bool) (s : DraftState) (n : ℕ)
    → clamp_cursor s.text s.cursor ≡ suc n
    → delete_backward_word is_word s ≡ record {
      text = take (word_boundary_left is_word s.text (pos (suc n))) s.text ++ drop (suc n) s.text;
      cursor = pos (word_boundary_left is_word s.text (pos (suc n)));
    }
unfolding delete_backward_word
word_at is_word s n e =
    let some_left : eqb (suc n) 0 ≡ false = ground arith in
    rw (delete_backward_word, e, some_left) refl

-- Deleting a word backward takes out what moving a word back passes over, and no more.
pub delete_backward_word-move_word_left :
    (is_word : ℕ → Bool) (s : Units) (at : ℕ)
    → at ≤ length s
    → delete_backward_word is_word (record { text = s; cursor = pos at }) ≡ record {
      text = take (word_boundary_left is_word s (pos at)) s ++ drop at s;
      cursor = (move_word_left is_word (record { text = s; cursor = pos at })).cursor;
    }
unfolding move_word_left
delete_backward_word-move_word_left is_word s zero h =
    let none_left : clamp_cursor s (pos 0) ≡ 0 = clamp_cursor-same s 0 h in
    let start : 0 ≡ word_boundary_left is_word s (pos 0) =
      omega (arith, word_boundary_left-le is_word s (pos 0), none_left) in
    at_start is_word (record { text = s; cursor = pos 0 }) none_left
    ∙ ap (λ n. record { text = take n s ++ s; cursor = pos n }) start
delete_backward_word-move_word_left is_word s (suc n) h =
    word_at is_word (record { text = s; cursor = pos (suc n) }) n (clamp_cursor-same s (suc n) h)
