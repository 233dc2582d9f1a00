-- ===== src/Tests/Sample.antt =====
-- Values for the parameters of the development: numbers that behave like the program's floats.
use interest_memory.Prelude.{ℕ, ◌+◌, ◌*◌, ◌/◌, Float, ltb, leb, eqb, arith, ◌≡◌, true, false}
use native.Mathlib.Nat.{mul_comm}

pub ltb_irrefl : (a : ℕ) → ltb a a ≡ false
ltb_irrefl a = ground arith

pub ltb_trans : (a b c : ℕ) → ltb a b ≡ true → ltb b c ≡ true → ltb a c ≡ true
ltb_trans a b c h k = ground arith

abbrev pub whole : Float
whole = record {
  F = ℕ;
  lt = ltb;
  le = leb;
  is_zero = λ a. eqb a 0;
  zero_f = 0;
  add = λ a b. a + b;
  mul = λ a b. a * b;
  div = λ a b. a / b;
  sqrt = λ a. a;
  lt_irrefl = ltb_irrefl;
  lt_trans = ltb_trans;
  mul_comm = mul_comm;
}
