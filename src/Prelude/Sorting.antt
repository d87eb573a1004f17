-- ===== src/Prelude/Sorting.antt =====
-- `[...xs].sort(compare)`: ECMAScript's sort is stable, and a stable sort has one result, so an
-- insertion sort computes it. `before a b` stands for `compare(a, b) < 0`.
use mathlib.Core.Path.{◌≡◌, refl, sym, subst}
use mathlib.Core.Option.{none, some}
use mathlib.Core.Logic.{inl, inr}
use mathlib.Core.Bool.{Bool, true, false}
use mathlib.Core.List.{List, [], ◌∷◌, Perm}
use mathlib.Core.List.Perm
use native.Mathlib.Omega.{arith}
use snapdragon.Prelude.Tests.{if◌then◌else◌, Bool-cases}
use Prim.Native.Nat.{◌+◌}
use snapdragon.Prelude.Lists.{length, All, All-imp, All-In, In, In-All, first}

module _ {ℓ} {A : Type ℓ} (before : A → A → Bool) where
  unfoldable pub insert_sorted : A → List A → List A
  insert_sorted x [] = x ∷ []
  insert_sorted x (y ∷ ys) =
      let rest = insert_sorted x ys in if before y x then y ∷ rest else x ∷ y ∷ ys

  unfoldable pub sort : List A → List A
  unfolding insert_sorted
  sort [] = []
  sort (x ∷ xs) = insert_sorted x (sort xs)

  -- No later item comes strictly before an earlier one.
  abbrev pub IsSorted : List A → Type 0
  IsSorted [] = Unit
  IsSorted (x ∷ xs) = All (λ y. before y x ≡ false) xs × IsSorted xs

-- A comparison that comes from a total preorder: asymmetric, and "not before" is transitive.
pub record IsOrder {ℓ} {A : Type ℓ} (before : A → A → Bool) : Type ℓ where
  pub asym : (a b : A) → before a b ≡ true → before b a ≡ false
  pub trans : (a b c : A) → before b a ≡ false → before c b ≡ false → before c a ≡ false

module _ {ℓ} {A : Type ℓ} (before : A → A → Bool) where
  insert_sorted-perm : (x : A) (ys : List A) → Perm (insert_sorted before x ys) (x ∷ ys)
  unfolding insert_sorted
  insert_sorted-perm x [] = Perm.refl _
  insert_sorted-perm x (y ∷ ys) = elim (Bool-cases (before y x)) [
    | inl e ↦ rw e (Perm.trans (Perm.cons y (insert_sorted-perm x ys)) (Perm.swap x y ys))
    | inr e ↦ rw e (Perm.refl _)
  ]

  -- Sorting keeps the items, each as often.
  pub sort-perm : (xs : List A) → Perm (sort before xs) xs
  unfolding sort
  sort-perm [] = Perm.refl _
  sort-perm (x ∷ xs) =
      Perm.trans (insert_sorted-perm x (sort before xs)) (Perm.cons x (sort-perm xs))

module _ {ℓ} {A : Type ℓ} (before : A → A → Bool) where
  length-insert_sorted : (x : A) (ys : List A) → length (insert_sorted before x ys) ≡ length ys + 1
  unfolding insert_sorted
  length-insert_sorted x [] = refl
  length-insert_sorted x (y ∷ ys) = ground (arith, length-insert_sorted x ys)

  pub length-sort : (xs : List A) → length (sort before xs) ≡ length xs
  unfolding sort
  length-sort [] = refl
  length-sort (x ∷ xs) = omega (arith, length-insert_sorted x (sort before xs), length-sort xs)

module _ {ℓ κ} {A : Type ℓ} (before : A → A → Bool) (P : A → Type κ) where
  All-insert_sorted : (x : A) (ys : List A) → P x → All P ys → All P (insert_sorted before x ys)
  unfolding insert_sorted
  All-insert_sorted x [] p h = (p, tt)
  All-insert_sorted x (y ∷ ys) p (q, h) = elim (Bool-cases (before y x)) [
    | inl e ↦ rw e (q, All-insert_sorted x ys p h)
    | inr e ↦ rw e (p, (q, h))
  ]

  pub All-sort : (xs : List A) → All P xs → All P (sort before xs)
  unfolding sort
  All-sort [] h = tt
  All-sort (x ∷ xs) (p, h) = All-insert_sorted x (sort before xs) p (All-sort xs h)

  insert_sorted-All : (x : A) (ys : List A) → All P (insert_sorted before x ys) → P x × All P ys
  unfolding insert_sorted
  insert_sorted-All x [] h = h
  insert_sorted-All x (y ∷ ys) h = elim (Bool-cases (before y x)) [
    | inl e ↦
        let k : All P (y ∷ insert_sorted before x ys) = rw e at h in
        let (p, q) = insert_sorted-All x ys k.1 in (p, (k.0, q))
    | inr e ↦ let k : All P (x ∷ y ∷ ys) = rw e at h in k
  ]

  pub sort-All : (xs : List A) → All P (sort before xs) → All P xs
  unfolding sort
  sort-All [] h = tt
  sort-All (x ∷ xs) h = let (p, q) = insert_sorted-All x (sort before xs) h in (p, sort-All xs q)

module _ {ℓ} {A : Type ℓ} (before : A → A → Bool) (order : IsOrder before) where
  insert_sorted-IsSorted :
      (x : A) (ys : List A) → IsSorted before ys → IsSorted before (insert_sorted before x ys)
  unfolding insert_sorted
  insert_sorted-IsSorted x [] h = (tt, tt)
  insert_sorted-IsSorted x (y ∷ ys) (p, h) = elim (Bool-cases (before y x)) [
    | inl e ↦ rw e (
      All-insert_sorted before (λ z. before z y ≡ false) x ys (order.asym y x e) p,
      insert_sorted-IsSorted x ys h,
    )
    | inr e ↦ rw e ((e, All-imp _ _ (λ z k. order.trans x y z e k) ys p), (p, h))
  ]

  -- Sorting puts the items in order.
  pub sort-IsSorted : (xs : List A) → IsSorted before (sort before xs)
  unfolding sort
  sort-IsSorted [] = tt
  sort-IsSorted (x ∷ xs) = insert_sorted-IsSorted x (sort before xs) (sort-IsSorted xs)

module _ {A : Type 0} (before : A → A → Bool) (order : IsOrder before) where
  irreflexive : (a : A) → before a a ≡ false
  irreflexive a = ground (arith, order.asym a a)

  -- The first of the sorted items: it is one of the items, and none comes strictly before it.
  pub first-sort :
      (xs : List A) (x : A)
      → first (sort before xs) ≡ some x
      → In x xs × All (λ y. before y x ≡ false) xs
  first-sort xs x e = head (sort before xs) refl e
    where
      head :
          (ys : List A)
          → sort before xs ≡ ys
          → first ys ≡ some x
          → In x xs × All (λ y. before y x ≡ false) xs
      head [] q h = cc
      head (y ∷ ys) q h =
          let same : y ≡ x = cc in
          let members : All (λ a. In a xs) (y ∷ ys) =
            subst (All (λ a. In a xs)) q (All-sort before _ xs (All-In xs)) in
          let ordered : IsSorted before (y ∷ ys) =
            subst (IsSorted before) q (sort-IsSorted before order xs) in
          let later : All (λ z. before z y ≡ false) (y ∷ ys) = (irreflexive y, ordered.0) in
          (
            subst (λ a. In a xs) same members.0,
            subst (λ a. All (λ z. before z a ≡ false) xs) same
                (sort-All before _ xs (subst (All (λ z. before z y ≡ false)) (sym q) later)),
          )

  -- Nothing is first only if there was nothing to sort.
  pub first-sort-none : (xs : List A) → first (sort before xs) ≡ none → xs ≡ []
  first-sort-none xs e = sym (Perm.nil-eq (empty (sort before xs) refl e))
    where
      empty : (ys : List A) → sort before xs ≡ ys → first ys ≡ none → Perm [] xs
      empty [] q h = subst (λ ys. Perm ys xs) q (sort-perm before xs)
      empty (y ∷ ys) q h = cc

module _ {A : Type 0} (before : A → A → Bool) where
  pub In-sort : (a : A) (xs : List A) → In a xs → In a (sort before xs)
  In-sort a xs m =
      In-All (λ x. In x (sort before xs)) xs a
        (sort-All before (λ x. In x (sort before xs)) xs (All-In (sort before xs))) m
