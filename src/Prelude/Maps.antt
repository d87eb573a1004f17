-- ===== src/Prelude/Maps.antt =====
-- JavaScript's `Map` with text keys, as the list of its entries in insertion order: setting a
-- present key keeps its place, setting a new one adds it at the end.
use Prim.Native.String.{String}
use mathlib.Core.Path.{◌≡◌, refl}
use mathlib.Core.Bool.{false}
use mathlib.Core.Option.{Option, none, some}
use mathlib.Core.List.{List, [], ◌∷◌, map}
use native.Mathlib.Omega.{arith}
use text.Mathlib.Text.{◌==◌}
use text.Mathlib.TextEquality.{eq_iff}
use text.Mathlib.TextPositions.{eq_refl}
use snapdragon.Prelude.Tests.{if◌then◌else◌, Bool-cases}
use snapdragon.Prelude.Lists.{All, In}
use mathlib.Core.Logic.{inl, inr}

abbrev pub Map {ℓ} : Type ℓ → Type ℓ
Map V = List (String × V)

module _ {ℓ} {V : Type ℓ} where
  unfoldable pub get : String → Map V → Option V
  get k [] = none
  get k ((j, v) ∷ m) = let rest = get k m in if j == k then some v else rest

  unfoldable pub set : String → V → Map V → Map V
  set k v [] = (k, v) ∷ []
  set k v ((j, w) ∷ m) = let rest = set k v m in if j == k then (j, v) ∷ m else (j, w) ∷ rest

  unfoldable pub delete : String → Map V → Map V
  delete k [] = []
  delete k ((j, w) ∷ m) = let rest = delete k m in if j == k then rest else (j, w) ∷ rest

  abbrev pub values : Map V → List V
  values m = map (λ e. e.1) m

  abbrev pub keys : Map V → List String
  keys m = map (λ e. e.0) m

  pub get-set :
      (k j : String) (v : V) (m : Map V) → get j (set k v m) ≡ (if k == j then some v else get j m)
  unfolding get set
  get-set k j v [] = refl
  get-set k j v ((i, w) ∷ m) = ground (arith, eq_iff k j, eq_iff i k, eq_iff i j, get-set k j v m)

  pub get-delete :
      (k j : String) (m : Map V) → get j (delete k m) ≡ (if k == j then none else get j m)
  unfolding get delete
  get-delete k j [] = ground arith
  get-delete k j ((i, w) ∷ m) = ground (arith, eq_iff k j, eq_iff i k, eq_iff i j, get-delete k j m)

  pub get-set_self : (k : String) (v : V) (m : Map V) → get k (set k v m) ≡ some v
  get-set_self k v m = simp (get-set, eq_refl)

pub ruleset map_laws = (get-set, get-delete, eq_refl)

module _ {ℓ κ} {V : Type ℓ} (P : V → Type κ) where
  -- What holds of every value holds of the value at a key.
  pub All-get : (k : String) (m : Map V) {v : V} → All P (values m) → get k m ≡ some v → P v
  unfolding get
  All-get k [] h e = absurd (ground arith)
  All-get k ((j, w) ∷ m) {v} (p, h) e = ground (arith, All-get k m {v = v} h)

module _ {ℓ} {V : Type ℓ} where
  -- `k` is the key of no entry.
  abbrev pub Lacks : String → Map V → Type 0
  Lacks k [] = Unit
  Lacks k ((j, v) ∷ m) = ((j == k) ≡ false) × Lacks k m

  -- No key has two entries, as in any `Map`.
  abbrev pub HasUniqueKeys : Map V → Type 0
  HasUniqueKeys [] = Unit
  HasUniqueKeys ((k, v) ∷ m) = Lacks k m × HasUniqueKeys m

  pub get_of_Lacks : (k : String) (m : Map V) → Lacks k m → get k m ≡ none
  unfolding get
  get_of_Lacks k [] h = refl
  get_of_Lacks k ((j, w) ∷ m) h = ground (arith, get_of_Lacks k m)

  Lacks-set :
      (k j : String) (v : V) (m : Map V) → (k == j) ≡ false → Lacks j m → Lacks j (set k v m)
  unfolding set
  Lacks-set k j v [] e h = (e, tt)
  Lacks-set k j v ((i, w) ∷ m) e (p, h) = ground (arith, Lacks-set k j v m e h)

  Lacks-delete : (k j : String) (m : Map V) → Lacks j m → Lacks j (delete k m)
  unfolding delete
  Lacks-delete k j [] h = tt
  Lacks-delete k j ((i, w) ∷ m) (p, h) = ground (arith, Lacks-delete k j m h)

  pub set-HasUniqueKeys :
      (k : String) (v : V) (m : Map V) → HasUniqueKeys m → HasUniqueKeys (set k v m)
  unfolding set
  set-HasUniqueKeys k v [] h = (tt, tt)
  set-HasUniqueKeys k v ((j, w) ∷ m) (p, h) =
      ground (arith, set-HasUniqueKeys k v m h, Lacks-set k j v m, eq_iff j k, eq_iff k j)

  pub delete-HasUniqueKeys : (k : String) (m : Map V) → HasUniqueKeys m → HasUniqueKeys (delete k m)
  unfolding delete
  delete-HasUniqueKeys k [] h = tt
  delete-HasUniqueKeys k ((j, w) ∷ m) (p, h) =
      ground (arith, delete-HasUniqueKeys k m h, Lacks-delete k j m p)

  -- The entries under a key that none of them has cannot hide one another.
  values_at :
      (P : String → V → Type 0) (m : Map V)
      → ((k : String) (v : V) → get k m ≡ some v → P k v)
      → HasUniqueKeys m
      → All (λ e. P e.0 e.1) m
  unfolding get
  values_at P [] f h = tt
  values_at P ((k, v) ∷ m) f (p, h) = (
    f k v (ground (arith, eq_refl k)),
    values_at P m (λ j w e. f j w (ground (arith, eq_iff k j, get_of_Lacks k m p))) h,
  )

  -- What holds of the value at each key holds of every value.
  pub values-All :
      (Q : V → Type 0) (m : Map V)
      → ((k : String) (v : V) → get k m ≡ some v → Q v)
      → HasUniqueKeys m
      → All Q (values m)
  values-All Q m f h = All-values Q m (values_at (λ k v. Q v) m f h)
    where
      All-values :
          (Q : V → Type 0) (m : Map V) → All (λ (e : String × V). Q e.1) m → All Q (values m)
      All-values Q [] h = tt
      All-values Q ((k, v) ∷ m) (p, h) = (p, All-values Q m h)

module _ {V : Type 0} where
  -- The value at a key is one of the values.
  pub In-values : (k : String) (v : V) (m : Map V) → get k m ≡ some v → In v (values m)
  unfolding get
  In-values k v [] e = cc
  In-values k v ((j, w) ∷ m) e = elim (Bool-cases (j == k)) [
    | inl same ↦ inl (ground arith)
    | inr other ↦ inr (In-values k v m (ground arith))
  ]
