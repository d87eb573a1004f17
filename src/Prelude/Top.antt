-- ===== src/Prelude/Top.antt =====
-- The first items of a sorted list, kept as items come in one at a time.
use Prim.Native.Nat.{ℕ, zero, suc}
use mathlib.Core.Path.{◌≡◌, refl, sym, ap, ◌∙◌}
use mathlib.Core.Logic.{inl, inr}
use mathlib.Core.Bool.{Bool, true, false}
use mathlib.Core.List.{List, [], ◌∷◌, ◌++◌}
use snapdragon.Prelude.Tests.{if◌then◌else◌, Bool-cases}
use snapdragon.Prelude.Lists.{All, take}
use snapdragon.Prelude.Sorting.{insert_sorted, sort, IsSorted, IsOrder, sort-IsSorted}

module _ {A : Type 0} (before : A → A → Bool) where
  take-take : (n : ℕ) (ys : List A) → take n (take (suc n) ys) ≡ take n ys
  take-take zero ys = refl
  take-take (suc n) [] = refl
  take-take (suc n) (y ∷ ys) = ap (λ zs. y ∷ zs) (take-take n ys)

  take-cons : (n : ℕ) (y : A) (ys : List A) → take n (y ∷ take n ys) ≡ take n (y ∷ ys)
  take-cons zero y ys = refl
  take-cons (suc n) y ys = ap (λ zs. y ∷ zs) (take-take n ys)

  -- An item put in after those that it is not before.
  abbrev insert_after : A → List A → List A
  insert_after d [] = d ∷ []
  insert_after d (y ∷ ys) =
      let rest = insert_after d ys in if before d y then d ∷ y ∷ ys else y ∷ rest

  take-insert_after :
      (n : ℕ) (d : A) (ys : List A)
      → take n (insert_after d (take n ys)) ≡ take n (insert_after d ys)
  take-insert_after zero d ys = refl
  take-insert_after (suc n) d [] = refl
  take-insert_after (suc n) d (y ∷ ys) = elim (Bool-cases (before d y)) [
    | inl e ↦ rw e (ap (λ zs. d ∷ zs) (take-cons n y ys))
    | inr e ↦ rw e (ap (λ zs. y ∷ zs) (take-insert_after n d ys))
  ]

  All-take : (P : A → Type 0) (n : ℕ) (ys : List A) → All P ys → All P (take n ys)
  All-take P zero ys h = tt
  All-take P (suc n) [] h = tt
  All-take P (suc n) (y ∷ ys) (p, h) = (p, All-take P n ys h)

  take-IsSorted : (n : ℕ) (ys : List A) → IsSorted before ys → IsSorted before (take n ys)
  take-IsSorted zero ys h = tt
  take-IsSorted (suc n) [] h = tt
  take-IsSorted (suc n) (y ∷ ys) (p, h) = (All-take _ n ys p, take-IsSorted n ys h)

  -- Sorting what is sorted changes nothing.
  sort-fixed : (ys : List A) → IsSorted before ys → sort before ys ≡ ys
  unfolding sort insert_sorted
  sort-fixed [] h = refl
  sort-fixed (y ∷ []) h = refl
  sort-fixed (x ∷ y ∷ ys) ((e, p), h) = rw (sort-fixed (y ∷ ys) h) (rw e refl)

module _ {A : Type 0} (before : A → A → Bool) (order : IsOrder before) where
  chain : (d y x : A) → before d y ≡ true → before y x ≡ true → before d x ≡ true
  chain d y x e f = elim (Bool-cases (before d x)) [
    | inl g ↦ g
    | inr g ↦ let h : before y x ≡ false = order.trans x d y g (order.asym d y e) in cc
  ]

  insert_sorted-insert_after :
      (x d : A) (ys : List A)
      → insert_sorted before x (insert_after before d ys)
        ≡ insert_after before d (insert_sorted before x ys)
  unfolding insert_sorted
  insert_sorted-insert_after x d [] = elim (Bool-cases (before d x)) [
    | inl e ↦ rw e refl
    | inr e ↦ rw e refl
  ]
  insert_sorted-insert_after x d (y ∷ ys) =
      let rest = insert_sorted-insert_after x d ys in
      elim (Bool-cases (before y x)) [
        | inl e ↦ elim (Bool-cases (before d y)) [
          | inl f ↦ let g = chain d y x f e in rw (e, f) (rw (g, e) refl)
          | inr f ↦ rw (e, f) (rw e (ap (λ zs. y ∷ zs) rest))
        ]
        | inr e ↦ elim (Bool-cases (before d y)) [
          | inl f ↦ elim (Bool-cases (before d x)) [
            | inl g ↦ rw (e, f) (rw (g, e) refl)
            | inr g ↦ rw (e, f) (rw g refl)
          ]
          | inr f ↦ let g = order.trans x y d e f in rw (e, f) (rw (e, g) refl)
        ]
      ]

  sort-append :
      (xs : List A) (d : A) → sort before (xs ++ d ∷ []) ≡ insert_after before d (sort before xs)
  unfolding sort insert_sorted
  sort-append [] d = refl
  sort-append (x ∷ xs) d =
      ap (insert_sorted before x) (sort-append xs d)
      ∙ insert_sorted-insert_after x d (sort before xs)

  -- Sorting the first items and one more gives the first items of all and one more.
  pub take-sort :
      (n : ℕ) (xs : List A) (d : A)
      → take n (sort before (take n (sort before xs) ++ d ∷ []))
        ≡ take n (sort before (xs ++ d ∷ []))
  take-sort n xs d =
      let first = take n (sort before xs) in
      let fixed : sort before first ≡ first =
        sort-fixed before first (take-IsSorted before n _ (sort-IsSorted before order xs)) in
      ap (take n) (sort-append first d ∙ ap (insert_after before d) fixed)
      ∙ (take-insert_after before n d (sort before xs) ∙ ap (take n) (sym (sort-append xs d)))
