-- ===== src/Prelude/Int.antt =====
-- Go's `int` where the source takes any sign: `negsuc n` is -(n + 1).
use Prim.Native.Nat.{ℕ, zero, suc, ◌<◌}
use native.Mathlib.Omega.{arith}

pub data ℤ : Type 0 where
  pos : ℕ → ℤ
  negsuc : ℕ → ℤ

-- A setting that is used only if it is positive: `if v <= 0 { v = d }`.
abbrev pub positive_or : ℕ → ℤ → ℕ
positive_or d (pos zero) = d
positive_or d (pos (suc n)) = suc n
positive_or d (negsuc n) = d

pub positive_or-pos : (d : ℕ) (z : ℤ) → 0 < d → 0 < positive_or d z
positive_or-pos d (pos zero) h = h
positive_or-pos d (pos (suc n)) h = omega arith
positive_or-pos d (negsuc n) h = h
