-- ===== src/Learn/Doubles.antt =====
-- The floating-point numbers that packages/learn/src computes with, as an interface: the operations, and
-- the laws of `<` on the numbers that are no NaN.
use snapdragon.Prelude.{ℕ, Bool, true, false, ◌≡◌}

pub record Double (D : Type 0) : Type 0 where
  pub nought : D
  pub add : D → D → D
  pub sub : D → D → D
  pub mul : D → D → D
  pub div : D → D → D
  pub lt : D → D → Bool
  pub of_nat : ℕ → D
  pub floor : D → ℕ

pub record IsOrdered {D : Type 0} (double : Double D) : Type 0 where
  pub asym : (a b : D) → double.lt a b ≡ true → double.lt b a ≡ false
  pub trans : (a b c : D) → double.lt b a ≡ false → double.lt c b ≡ false → double.lt c a ≡ false
