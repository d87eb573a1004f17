-- ===== src/Prelude/Increasing.antt =====
-- Lists whose numbers rise strictly, such as the records of a log.
use Prim.Native.Nat.{ℕ, ◌<◌}
use mathlib.Core.Path.{◌≡◌, refl, ap}
use mathlib.Core.Bool.{Bool}
use mathlib.Core.Logic.{inl, inr}
use mathlib.Core.List.{List, [], ◌∷◌, ◌++◌}
use native.Mathlib.Omega.{arith}
use snapdragon.Prelude.Tests.{ltb, Bool-cases}
use snapdragon.Prelude.Lists.{All, All-filter, All-append, filter}
use snapdragon.Prelude.Sorting.{insert_sorted, sort}

module _ {A : Type 0} (key : A → ℕ) where
  abbrev pub IsIncreasing : List A → Type 0
  IsIncreasing [] = Unit
  IsIncreasing (x ∷ xs) = All (λ y. key x < key y) xs × IsIncreasing xs

  -- One more item at the end, with a number above the others.
  pub IsIncreasing-append :
      (xs : List A) (x : A)
      → IsIncreasing xs
      → All (λ y. key y < key x) xs
      → IsIncreasing (xs ++ x ∷ [])
  IsIncreasing-append [] x h k = (tt, tt)
  IsIncreasing-append (y ∷ xs) x (p, h) (q, k) =
      (All-append (λ z. key y < key z) xs (x ∷ []) p (q, tt), IsIncreasing-append xs x h k)

  pub IsIncreasing-filter :
      (keep : A → Bool) (xs : List A) → IsIncreasing xs → IsIncreasing (filter keep xs)
  IsIncreasing-filter keep [] h = tt
  IsIncreasing-filter keep (x ∷ xs) (p, h) = elim (Bool-cases (keep x)) [
    | inl e ↦ rw e (All-filter (λ y. key x < key y) keep xs p, IsIncreasing-filter keep xs h)
    | inr e ↦ rw e (IsIncreasing-filter keep xs h)
  ]

  -- Sorting by the number changes nothing.
  pub sort-same : (xs : List A) → IsIncreasing xs → sort (λ a b. ltb (key a) (key b)) xs ≡ xs
  unfolding sort insert_sorted
  sort-same [] h = refl
  sort-same (x ∷ []) h = refl
  sort-same (x ∷ y ∷ xs) ((p, q), h) = rw (sort-same (y ∷ xs) h) (ground arith)

pub filter-filter :
    {A : Type 0} (keep : A → Bool) (xs : List A) → filter keep (filter keep xs) ≡ filter keep xs
filter-filter keep [] = refl
filter-filter keep (x ∷ xs) = elim (Bool-cases (keep x)) [
  | inl e ↦ rw e (rw e (ap (λ rest. x ∷ rest) (filter-filter keep xs)))
  | inr e ↦ rw e (filter-filter keep xs)
]
