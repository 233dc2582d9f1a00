-- ===== src/Prelude/Floats.antt =====
-- The floating-point numbers of the program, float64 and float32, which enter as a parameter: the
-- operations that the source calls, and the laws of IEEE 754 that its results rest on.
use mathlib.Core.Bool.{Bool, true, false}
use mathlib.Core.Path.{◌≡◌}

pub record Float : Type 1 where
  pub F : Type 0
  pub lt : F → F → Bool
  pub le : F → F → Bool
  pub is_zero : F → Bool
  pub zero_f : F
  pub add : F → F → F
  pub mul : F → F → F
  pub div : F → F → F
  pub sqrt : F → F
  -- `<` is a strict partial order, also with NaN, and multiplication commutes.
  pub lt_irrefl : (a : F) → lt a a ≡ false
  pub lt_trans : (a b c : F) → lt a b ≡ true → lt b c ≡ true → lt a c ≡ true
  pub mul_comm : (a b : F) → mul a b ≡ mul b a
