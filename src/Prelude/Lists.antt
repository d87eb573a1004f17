-- ===== src/Prelude/Lists.antt =====
-- Lists under JavaScript's array methods, measured by native numbers.
use Prim.Native.Nat.{ℕ, zero, suc, ◌+◌, ◌-◌, ◌≤◌, ◌<◌, min}
use mathlib.Core.Path.{◌≡◌, refl, sym, ◌∙◌, ap, subst}
use mathlib.Core.Logic.{◌⊎◌, ◌≢◌, inl, inr}
use mathlib.Core.Bool.{Bool, true, false, ◌&&◌, ◌||◌, false≢true}
use mathlib.Core.List.{List, [], ◌∷◌, ◌++◌}
use mathlib.Core.Option.{Option, none, some}
use native.Mathlib.Omega.{arith}
use snapdragon.Prelude.Tests.{if◌then◌else◌, Bool-cases}

module _ {ℓ} {A : Type ℓ} where
  abbrev pub length : List A → ℕ
  length [] = 0
  length (x ∷ xs) = suc (length xs)

  -- `xs.filter(keep)`
  abbrev pub filter : (A → Bool) → List A → List A
  filter keep [] = []
  filter keep (x ∷ xs) = let rest = filter keep xs in if keep x then x ∷ rest else rest

  -- `xs.find(test)`
  abbrev pub find : (A → Bool) → List A → Option A
  find test [] = none
  find test (x ∷ xs) = let rest = find test xs in if test x then some x else rest

  -- `xs.every(test)` and `xs.some(test)`
  abbrev pub every : (A → Bool) → List A → Bool
  every test [] = true
  every test (x ∷ xs) = test x && every test xs

  abbrev pub has_some : (A → Bool) → List A → Bool
  has_some test [] = false
  has_some test (x ∷ xs) = test x || has_some test xs

  -- `xs[0]`
  abbrev pub first : List A → Option A
  first [] = none
  first (x ∷ xs) = some x

  abbrev pub drop : ℕ → List A → List A
  drop zero xs = xs
  drop (suc n) [] = []
  drop (suc n) (x ∷ xs) = drop n xs

  pub length-drop : (n : ℕ) (xs : List A) → length (drop n xs) ≡ length xs - n
  length-drop zero xs = omega arith
  length-drop (suc n) [] = omega arith
  length-drop (suc n) (x ∷ xs) = omega (arith, length-drop n xs)

  pub length-append : (xs ys : List A) → length (xs ++ ys) ≡ length xs + length ys
  length-append [] ys = omega arith
  length-append (x ∷ xs) ys = omega (arith, length-append xs ys)

  pub length-filter : (keep : A → Bool) (xs : List A) → length (filter keep xs) ≤ length xs
  length-filter keep [] = omega arith
  length-filter keep (x ∷ xs) = ground (arith, length-filter keep xs)

module _ {ℓ κ} {A : Type ℓ} (P : A → Type κ) where
  -- `P` holds of each item.
  abbrev pub All : List A → Type κ
  All [] = Unit
  All (x ∷ xs) = P x × All xs

  pub All-filter : (keep : A → Bool) (xs : List A) → All xs → All (filter keep xs)
  All-filter keep [] h = tt
  All-filter keep (x ∷ xs) (p, h) = ground (arith, All-filter keep xs h)

  pub All-append : (xs ys : List A) → All xs → All ys → All (xs ++ ys)
  All-append [] ys h k = k
  All-append (x ∷ xs) ys (p, h) k = (p, All-append xs ys h k)

module _ {ℓ κ ι} {A : Type ℓ} (P : A → Type κ) (Q : A → Type ι) where
  pub All-imp : ((a : A) → P a → Q a) → (xs : List A) → All P xs → All Q xs
  All-imp f [] h = tt
  All-imp f (x ∷ xs) (p, h) = (f x p, All-imp f xs h)

pub All-both {ℓ κ ι} :
    {A : Type ℓ} (P : A → Type κ) (Q : A → Type ι) (xs : List A)
    → All P xs
    → All Q xs
    → All (λ a. P a × Q a) xs
All-both P Q [] h k = tt
All-both P Q (x ∷ xs) (p, h) (q, k) = ((p, q), All-both P Q xs h k)

module _ {A : Type 0} where
  -- `a` is one of the items.
  abbrev pub In : A → List A → Type 0
  In a [] = ⊥
  In a (x ∷ xs) = (a ≡ x) ⊎ In a xs

  All-In-cons : (x : A) (xs ys : List A) → All (λ a. In a xs) ys → All (λ a. In a (x ∷ xs)) ys
  All-In-cons x xs [] h = tt
  All-In-cons x xs (y ∷ ys) (p, h) = (inr p, All-In-cons x xs ys h)

  pub All-In : (xs : List A) → All (λ a. In a xs) xs
  All-In [] = tt
  All-In (x ∷ xs) = (inl refl, All-In-cons x xs xs (All-In xs))

  pub In-All {κ} : (P : A → Type κ) (xs : List A) (a : A) → All P xs → In a xs → P a
  In-All P [] a h m = elim m [ ]
  In-All P (x ∷ xs) a (p, h) (inl e) = subst P (sym e) p
  In-All P (x ∷ xs) a (p, h) (inr m) = In-All P xs a h m

  -- What `filter` keeps passes the test, and what fails the test it drops.
  pub All-filter_keep : (keep : A → Bool) (xs : List A) → All (λ a. keep a ≡ true) (filter keep xs)
  All-filter_keep keep [] = tt
  All-filter_keep keep (x ∷ xs) = ground (arith, All-filter_keep keep xs)

  pub filter-All {κ} :
      (P : A → Type κ) (keep : A → Bool) (xs : List A)
      → All P (filter keep xs)
      → All (λ a. keep a ≡ true → P a) xs
  filter-All P keep [] h = tt
  filter-All P keep (x ∷ xs) h = elim (Bool-cases (keep x)) [
    | inl e ↦ let k : All P (x ∷ filter keep xs) = rw e at h in (λ _. k.0, filter-All P keep xs k.1)
    | inr e ↦
        let k : All P (filter keep xs) = rw e at h in
        (λ t. absurd (false≢true (sym e ∙ t)), filter-All P keep xs k)
  ]

module _ {ℓ} {A : Type ℓ} where
  -- `xs.slice(-n)`, where `-0` is 0 and the slice is the whole list
  abbrev pub slice_last : ℕ → List A → List A
  slice_last zero xs = xs
  slice_last (suc n) xs = drop (length xs - suc n) xs

  pub length-slice_last :
      (n : ℕ) (xs : List A) → 0 < n → length (slice_last n xs) ≡ min n (length xs)
  length-slice_last zero xs h = absurd (omega arith)
  length-slice_last (suc n) xs h = omega (arith, length-drop (length xs - suc n) xs)

  pub All-drop {κ} : (P : A → Type κ) (n : ℕ) (xs : List A) → All P xs → All P (drop n xs)
  All-drop P zero xs h = h
  All-drop P (suc n) [] h = tt
  All-drop P (suc n) (x ∷ xs) (p, h) = All-drop P n xs h

  pub drop-append : (n : ℕ) (xs ys : List A) → n ≤ length xs → drop n (xs ++ ys) ≡ drop n xs ++ ys
  drop-append zero xs ys h = refl
  drop-append (suc n) [] ys h = absurd (omega arith)
  drop-append (suc n) (x ∷ xs) ys h = drop-append n xs ys (omega arith)

module _ {ℓ} {A : Type ℓ} where
  -- An array cell: reading past the end gives nothing, and writing there does nothing.
  abbrev pub get_elem? : List A → ℕ → Option A
  get_elem? [] i = none
  get_elem? (x ∷ xs) zero = some x
  get_elem? (x ∷ xs) (suc i) = get_elem? xs i

  abbrev pub put : ℕ → A → List A → List A
  put i v [] = []
  put zero v (x ∷ xs) = v ∷ xs
  put (suc i) v (x ∷ xs) = x ∷ put i v xs

  pub get_elem?-put_self :
      (i : ℕ) (v w : A) (xs : List A) → get_elem? xs i ≡ some w → get_elem? (put i v xs) i ≡ some v
  get_elem?-put_self i v w [] h = cc h
  get_elem?-put_self zero v w (x ∷ xs) h = refl
  get_elem?-put_self (suc i) v w (x ∷ xs) h = get_elem?-put_self i v w xs h

  pub get_elem?-put_ne :
      (i j : ℕ) (v : A) (xs : List A) → i ≢ j → get_elem? (put i v xs) j ≡ get_elem? xs j
  get_elem?-put_ne i j v [] h = refl
  get_elem?-put_ne zero zero v (x ∷ xs) h = absurd (h refl)
  get_elem?-put_ne zero (suc j) v (x ∷ xs) h = refl
  get_elem?-put_ne (suc i) zero v (x ∷ xs) h = refl
  get_elem?-put_ne (suc i) (suc j) v (x ∷ xs) h = get_elem?-put_ne i j v xs (λ e. h (ap suc e))

  pub get_elem?-append_end : (xs : List A) (v : A) → get_elem? (xs ++ v ∷ []) (length xs) ≡ some v
  get_elem?-append_end [] v = refl
  get_elem?-append_end (x ∷ xs) v = get_elem?-append_end xs v

  pub get_elem?-append_old :
      (xs ys : List A) (i : ℕ) {v : A} → get_elem? xs i ≡ some v → get_elem? (xs ++ ys) i ≡ some v
  get_elem?-append_old [] ys i h = cc h
  get_elem?-append_old (x ∷ xs) ys zero h = h
  get_elem?-append_old (x ∷ xs) ys (suc i) h = get_elem?-append_old xs ys i h

  pub get_elem?-lt : (xs : List A) (i : ℕ) {v : A} → get_elem? xs i ≡ some v → i < length xs
  get_elem?-lt [] i h = cc h
  get_elem?-lt (x ∷ xs) zero h = omega arith
  get_elem?-lt (x ∷ xs) (suc i) h = omega (arith, get_elem?-lt xs i h)

module _ {A : Type 0} where
  -- `find` returns an item that passes, if any does.
  pub find-In :
      (test : A → Bool) (xs : List A) {x : A} → find test xs ≡ some x → In x xs × (test x ≡ true)
  find-In test [] h = cc h
  find-In test (y ∷ xs) {x} h = elim (Bool-cases (test y)) [
    | inl e ↦ let same : x ≡ y = ground arith in (inl same, rw same e)
    | inr e ↦
        let found : find test xs ≡ some x = ground arith in
        let (m, p) = find-In test xs found in (inr m, p)
  ]

  pub find-none :
      (test : A → Bool) (xs : List A) (x : A) → In x xs → find test xs ≡ none → test x ≡ false
  find-none test [] x m h = elim m [ ]
  find-none test (y ∷ xs) x (inl e) h = rw e (ground arith)
  find-none test (y ∷ xs) x (inr m) h = find-none test xs x m (ground arith)

module _ {ℓ} {A : Type ℓ} where
  -- `xs.slice(0, n)`
  abbrev pub take : ℕ → List A → List A
  take zero xs = []
  take (suc n) [] = []
  take (suc n) (x ∷ xs) = x ∷ take n xs

  pub take-drop : (n : ℕ) (xs : List A) → take n xs ++ drop n xs ≡ xs
  take-drop zero xs = refl
  take-drop (suc n) [] = refl
  take-drop (suc n) (x ∷ xs) = ap (◌∷◌ x) (take-drop n xs)

  pub length-take : (n : ℕ) (xs : List A) → length (take n xs) ≡ min n (length xs)
  length-take zero xs = omega arith
  length-take (suc n) [] = omega arith
  length-take (suc n) (x ∷ xs) = omega (arith, length-take n xs)

  -- `xs.at(-1)`
  abbrev pub last : List A → Option A
  last [] = none
  last (x ∷ []) = some x
  last (x ∷ y ∷ xs) = last (y ∷ xs)

  -- `xs.findIndex(test)`
  abbrev pub find_index : (A → Bool) → List A → Option ℕ
  find_index test [] = none
  find_index test (x ∷ xs) =
      let rest = find_index test xs in
      if test x then some 0 else elim rest [ none ↦ none | some i ↦ some (suc i) ]

  abbrev pub take_while : (A → Bool) → List A → List A
  take_while test [] = []
  take_while test (x ∷ xs) = let rest = take_while test xs in if test x then x ∷ rest else []

  pub append_assoc : (xs ys zs : List A) → (xs ++ ys) ++ zs ≡ xs ++ (ys ++ zs)
  append_assoc [] ys zs = refl
  append_assoc (x ∷ xs) ys zs = ap (◌∷◌ x) (append_assoc xs ys zs)

pub append_nil {ℓ} : {A : Type ℓ} (xs : List A) → xs ++ [] ≡ xs
append_nil [] = refl
append_nil (x ∷ xs) = ap (λ rest. x ∷ rest) (append_nil xs)

-- `ys` starts with `xs`.
abbrev pub Prefix {ℓ} : {A : Type ℓ} → List A → List A → Type ℓ
Prefix {A} xs ys = (rest : List A) × (ys ≡ xs ++ rest)
