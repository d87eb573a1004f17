-- ===== src/Sd/Draft/Lines.antt =====
-- Lines and typing in the prompt (packages/sd/src/tui/draft-edit.ts).
use snapdragon.Prelude.{
  ℕ, zero, suc, ◌+◌, ◌-◌, ◌≤◌, ◌<◌, ◌≡◌, refl, sym, ap, ◌∙◌, false, Bool-cases, inl, inr, some, [],
  ◌∷◌, ◌++◌, eqb, if◌then◌else◌, length, length-append, length-take, take, drop, take-drop,
  append_assoc, append_nil, get_elem?, arith,
}
use snapdragon.Prelude.Int.{pos}
use snapdragon.Prelude.Units.{Units}
use snapdragon.Sd.Draft.{
  DraftState, clamp_cursor, insert_at, delete_backward_char, back_while, is_in_line,
  move_line_start, locate_from, locate_cursor,
}
use snapdragon.Sd.Draft.Inside.{
  back_while-le, IsInside, clamp_cursor-le, clamp_cursor-same, delete_times,
}

-- The draft whose cursor is between two texts.
abbrev pub between : Units → Units → DraftState
between before after = record { text = before ++ after; cursor = pos (length before) }

same_draft :
    {s t : Units} {i j : ℕ}
    → s ≡ t
    → i ≡ j
    → ◌≡◌ {A = DraftState}
        (record { text = s; cursor = pos i })
        (record { text = t; cursor = pos j })
same_draft e f = cc

take-append : (xs ys : Units) → take (length xs) (xs ++ ys) ≡ xs
take-append [] ys = refl
take-append (x ∷ xs) ys = ap (λ zs. x ∷ zs) (take-append xs ys)

drop-append_all : (xs ys : Units) → drop (length xs) (xs ++ ys) ≡ ys
drop-append_all [] ys = refl
drop-append_all (x ∷ xs) ys = drop-append_all xs ys

between-clamp :
    (before after : Units) → clamp_cursor (before ++ after) (pos (length before)) ≡ length before
between-clamp before after =
    clamp_cursor-same _ (length before) (omega (arith, length-append before after))

drop-after : (xs : Units) (c : ℕ) (ys : Units) → drop (suc (length xs)) (xs ++ c ∷ ys) ≡ ys
drop-after [] c ys = refl
drop-after (x ∷ xs) c ys = drop-after xs c ys

delete-at :
    (s : DraftState) (n : ℕ)
    → clamp_cursor s.text s.cursor ≡ suc n
    → delete_backward_char s
      ≡ record { text = take n s.text ++ drop (suc n) s.text; cursor = pos n }
unfolding delete_backward_char
delete-at s n e =
    let one : suc n - 1 ≡ n = omega arith in
    let some_left : eqb (suc n) 0 ≡ false = ground arith in
    rw (delete_backward_char, e, some_left, one) refl

delete-between :
    (before : Units) (c : ℕ) (after : Units)
    → delete_backward_char (between (before ++ c ∷ []) after) ≡ between before after
unfolding delete_backward_char
delete-between before c after =
    let whole = (before ++ c ∷ []) ++ after in
    let same : whole ≡ before ++ c ∷ after = append_assoc before (c ∷ []) after in
    let count = length-append before (c ∷ []) in
    let at : clamp_cursor whole (pos (length (before ++ c ∷ []))) ≡ suc (length before) =
      between-clamp (before ++ c ∷ []) after ∙ omega (arith, count) in
    let kept : take (length before) whole ≡ before =
      ap (take (length before)) same ∙ take-append before (c ∷ after) in
    let rest : drop (suc (length before)) whole ≡ after =
      ap (drop (suc (length before))) same ∙ drop-after before c after in
    delete-at (between (before ++ c ∷ []) after) (length before) at
    ∙ ap (λ t. record { text = t; cursor = pos (length before) })
        (ap (λ a. a ++ drop (suc (length before)) whole) kept ∙ ap (λ b. before ++ b) rest)

-- A text that is not empty, by its last unit.
split-last :
    (c : ℕ) (s : Units)
    → (init : Units) × (d : ℕ) × (c ∷ s ≡ init ++ d ∷ []) × (length init ≡ length s)
split-last c [] = ([], c, refl, refl)
split-last c (b ∷ s) =
    let (init, d, e, l) = split-last b s in (c ∷ init, d, ap (λ zs. c ∷ zs) e, ap suc l)

delete_times-between :
    (n : ℕ) (before chunk after : Units)
    → length chunk ≡ n
    → delete_times n (between (before ++ chunk) after) ≡ between before after
delete_times-between zero before [] after e = ap (λ b. between b after) (append_nil before)
delete_times-between zero before (c ∷ chunk) after e = absurd (omega (arith, e))
delete_times-between (suc n) before [] after e = absurd (omega (arith, e))
delete_times-between (suc n) before (c ∷ chunk) after e =
    let (init, d, f, l) = split-last c chunk in
    ap (λ b. delete_times (suc n) (between (before ++ b) after)) f
    ∙ (ap (λ b. delete_times (suc n) (between b after)) (sym (append_assoc before init (d ∷ [])))
        ∙ (ap (delete_times n) (delete-between (before ++ init) d after)
            ∙ delete_times-between n before init after (omega (arith, e, l))))

-- Deleting backward as often as there are units in a chunk takes back its insertion.
pub delete_times-insert_at :
    (s : DraftState) (chunk : Units)
    → IsInside s
    → delete_times (length chunk) (insert_at s chunk) ≡ s
unfolding insert_at
delete_times-insert_at s chunk h =
    let n = clamp_cursor s.text s.cursor in
    let before = take n s.text in
    let after = drop n s.text in
    let whole : before ++ after ≡ s.text = take-drop n s.text in
    let count : length before ≡ n =
      omega (arith, length-take n s.text, clamp_cursor-le s.text s.cursor) in
    let here : n ≡ h.at =
      ap (clamp_cursor s.text) h.cursor ∙ clamp_cursor-same s.text h.at h.bound in
    let typed : insert_at s chunk ≡ between (before ++ chunk) after =
      same_draft (sym (append_assoc before chunk after))
        (omega (arith, count, length-append before chunk)) in
    let back : between before after ≡ s =
      same_draft whole (count ∙ here)
      ∙ ap (λ z. record { text = s.text; cursor = z }) (sym h.cursor) in
    ap (delete_times (length chunk)) typed
    ∙ (delete_times-between (length chunk) before chunk after refl ∙ back)

-- The number of newlines.
abbrev pub newlines : Units → ℕ
newlines [] = 0
newlines (c ∷ s) = let rest = newlines s in if eqb c b'\n' then suc rest else rest

-- One unit more for the loop of `locateCursor`.
abbrev located : ℕ → ℕ → ℕ × ℕ → ℕ × ℕ
located c i (line, line_start) = if eqb c b'\n' then (line + 1, i + 1) else (line, line_start)

locate_from-end :
    (s : Units) (c i line line_start : ℕ)
    → locate_from (s ++ c ∷ []) i line line_start
      ≡ located c (i + length s) (locate_from s i line line_start)
unfolding locate_from
locate_from-end [] c i line line_start =
    let same : i ≡ i + 0 = omega arith in ap (λ k. located c k (line, line_start)) same
locate_from-end (d ∷ s) c i line line_start =
    let same : i + 1 + length s ≡ i + suc (length s) = omega arith in
    elim (Bool-cases (eqb d b'\n')) [
      | inl e ↦ rw e (
          locate_from-end s c (i + 1) (line + 1) (i + 1)
          ∙ ap (λ k. located c k (locate_from s (i + 1) (line + 1) (i + 1))) same)
      | inr e ↦ rw e (
          locate_from-end s c (i + 1) line line_start
          ∙ ap (λ k. located c k (locate_from s (i + 1) line line_start)) same)
    ]

take-suc :
    (n : ℕ) (s : Units)
    → n < length s
    → (c : ℕ) × (get_elem? s n ≡ some c)
      × (take (suc n) s ≡ take n s ++ c ∷ [])
      × (length (take n s) ≡ n)
take-suc n [] h = absurd (omega arith)
take-suc zero (c ∷ s) h = (c, refl, refl, refl)
take-suc (suc n) (c ∷ s) h =
    let (d, e, f, l) = take-suc n s (omega arith) in (d, e, ap (λ zs. c ∷ zs) f, ap suc l)

located-back :
    (s : Units) (n c : ℕ) (p : ℕ × ℕ)
    → get_elem? s n ≡ some c
    → length (take n s) ≡ n
    → p.1 ≡ back_while is_in_line s n
    → (located c (0 + length (take n s)) p).1 ≡ back_while is_in_line s (suc n)
unfolding back_while
located-back s n c p e l f = elim (Bool-cases (eqb c b'\n')) [
  | inl g ↦ rw (e, g) (omega (arith, l))
  | inr g ↦ rw (e, g) f
]

locate_from-newlines :
    (s : Units) (i line line_start : ℕ) → (locate_from s i line line_start).0 ≡ line + newlines s
unfolding locate_from
locate_from-newlines [] i line line_start = omega arith
locate_from-newlines (c ∷ s) i line line_start = elim (Bool-cases (eqb c b'\n')) [
  | inl e ↦ rw e (omega (arith, locate_from-newlines s (i + 1) (line + 1) (i + 1)))
  | inr e ↦ rw e (locate_from-newlines s (i + 1) line line_start)
]

-- The start of the line that `locateCursor` finds is the one that `moveLineStart` goes to.
locate_from-back_while :
    (s : Units) (n : ℕ)
    → n ≤ length s
    → (locate_from (take n s) 0 0 0).1 ≡ back_while is_in_line s n
unfolding locate_from back_while
locate_from-back_while s zero h = refl
locate_from-back_while s (suc n) h =
    let (c, e, f, l) = take-suc n s h in
    let before = locate_from-back_while s n (omega (arith, h)) in
    ap (λ zs. (locate_from zs 0 0 0).1) f
    ∙ (ap (λ p. p.1) (locate_from-end (take n s) c 0 0 0) ∙ located-back s n c _ e l before)

-- The line is the number of newlines before the cursor, and `moveLineStart` goes back by the column.
pub locate_cursor-line :
    (s : DraftState)
    → ((locate_cursor s.text s.cursor).line ≡ newlines (take (clamp_cursor s.text s.cursor) s.text))
      × ((move_line_start s).cursor
          ≡ pos (clamp_cursor s.text s.cursor - (locate_cursor s.text s.cursor).column))
unfolding locate_cursor move_line_start
locate_cursor-line s =
    let n = clamp_cursor s.text s.cursor in
    let start = locate_from-back_while s.text n (clamp_cursor-le s.text s.cursor) in
    let low = back_while-le is_in_line s.text n in
    (omega (arith, locate_from-newlines (take n s.text) 0 0 0), ap pos (omega (arith, start, low)))
