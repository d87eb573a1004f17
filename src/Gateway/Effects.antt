-- ===== src/Gateway/Effects.antt =====
-- A method of a store changes the store's fields, returns a value, and calls the logger it was
-- built with: it is a function from the state to the value, the new state, and the calls of the
-- logger in order. A method that may throw returns an `Outcome`; what it wrote before it threw stays.
use snapdragon.Prelude.{◌≡◌, refl, ◌⊎◌, inl, inr, String, Option, List, ◌++◌}
use snapdragon.Prelude.Json.{Json}

-- One call `log(level, target, message, data)`.
pub record LogLine : Type 0 where
  pub level : String
  pub target : Option String
  pub message : String
  pub data_of : Option Json

abbrev pub Act : Type 0 → Type 0 → Type 0
Act S A = S → A × S × List LogLine

-- How a method ends: with its value, or by the message of the `Error` that it throws.
pub data Outcome {ℓ} (A : Type ℓ) : Type ℓ where
  throws : String → Outcome A
  returns : A → Outcome A

abbrev pub Throws : Type 0 → Type 0 → Type 0
Throws S A = Act S (Outcome A)

-- What follows in a method that has not thrown; `do` blocks are chains of it.
infixl 5 ◌>>=◌
abbrev pub ◌>>=◌ : {A B : Type 0} → Outcome A → (A → Outcome B) → Outcome B
throws message >>= rest = throws message
returns value >>= rest = rest value

-- Calls of the logger that came before those of the rest of the method.
abbrev pub after : {S A : Type 0} → List LogLine → A × S × List LogLine → A × S × List LogLine
after lines (a, s, more) = (a, s, lines ++ more)

pub Outcome-cases :
    {A : Type 0} (r : Outcome A)
    → ((message : String) × (r ≡ throws message)) ⊎ ((a : A) × (r ≡ returns a))
Outcome-cases (throws message) = inl (message, refl)
Outcome-cases (returns a) = inr (a, refl)

pub returns-injective : {A : Type 0} {a b : A} → returns a ≡ returns b → a ≡ b
returns-injective h = cc h

-- A `do` block that returns has returned at its first step.
pub >>=-eq-returns :
    {A B : Type 0} (m : Outcome A) (f : A → Outcome B) {b : B}
    → (m >>= f) ≡ returns b
    → (a : A) × (m ≡ returns a) × (f a ≡ returns b)
>>=-eq-returns (throws message) f h = cc h
>>=-eq-returns (returns a) f h = (a, refl, h)
