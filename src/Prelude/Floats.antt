-- ===== src/Prelude/Floats.antt =====
-- Go's float64: IEEE 754 is not part of the repository, so a float is a parameter with its
-- comparisons, which are false on NaN, and the operations and constants that the program uses.
use Prim.Native.Nat.{ℕ}
use mathlib.Core.Path.{◌≡◌}
use mathlib.Core.Bool.{Bool, true, false}

pub record Floats (F : Type 0) : Type 0 where
  pub lt : F → F → Bool
  pub le : F → F → Bool
  pub of_nat : ℕ → F
  pub neg : F → F
  pub add : F → F → F
  pub sub : F → F → F
  pub mul : F → F → F
  pub div : F → F → F
  -- 0.1, 0.9, 0.95, 0.8, 0.4, 0.3 and math.MaxFloat64
  pub tenth : F
  pub nine_tenths : F
  pub nineteen_twentieths : F
  pub four_fifths : F
  pub two_fifths : F
  pub three_tenths : F
  pub max_float : F

-- The comparison `<` of IEEE 754 is a strict order.
pub record IsOrdered {F : Type 0} (floats : Floats F) : Type 0 where
  pub lt_irrefl : (a : F) → floats.lt a a ≡ false
  pub lt_trans : (a b c : F) → floats.lt a b ≡ true → floats.lt b c ≡ true → floats.lt a c ≡ true
