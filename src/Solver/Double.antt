-- ===== src/Solver/Double.antt =====
-- The floating-point operations that the solvers use, and the laws of the order that they rely on.
use proof_cost_network.Base.{ℕ, ◌≡◌, Bool, true, false}

-- `double` and `float` are one type of numbers, and only the conversion of a number that a `float` cannot
-- hold is written out. Rounding is left to the operations.
pub record Double : Type 1 where
  pub D : Type 0
  pub dbl_max : D
  -- The conversion of a `double` to a `float`.
  pub to_float : D → D
  pub zero : D
  pub one : D
  pub add : D → D → D
  pub sub : D → D → D
  pub mul : D → D → D
  pub div : D → D → D
  pub neg : D → D
  pub fmin : D → D → D
  pub fmax : D → D → D
  pub ceil : D → D
  pub ltb : D → D → Bool
  pub geb : D → D → Bool
  pub eqb : D → D → Bool
  pub of_nat : ℕ → D
  -- The conversion to `int`.
  pub trunc : D → ℕ

-- `<` is a strict linear order on the numbers in use (there is no NaN among them).
pub record IsOrdered (double : Double) : Type 0 where
  pub ltb_irrefl : (a : double.D) → double.ltb a a ≡ false
  pub ltb_trans :
      (a b c : double.D) → double.ltb a b ≡ true → double.ltb b c ≡ true → double.ltb a c ≡ true
  -- What is not below is at least as large as anything below the other.
  pub ltb_total :
      (a b c : double.D) → double.ltb a b ≡ false → double.ltb a c ≡ true → double.ltb b c ≡ true
