-- ===== src/Base/Floats.antt =====
-- Go's `float64`. A value is its IEEE 754 bit pattern, a native number below 2 ^ 64, so that a
-- constant of the source is written out as its pattern and `0` is zero. The operations are the
-- hardware's and are parameters.
use Prim.Native.Nat.{ℕ}
use mathlib.Core.Bool.{Bool}

pub record Floats : Type 0 where
  -- `float64(n)` for a `uint64`
  pub of_uint64 : ℕ → ℕ
  pub plus : ℕ → ℕ → ℕ
  pub minus : ℕ → ℕ → ℕ
  pub times : ℕ → ℕ → ℕ
  pub over : ℕ → ℕ → ℕ
  -- `math.Abs`
  pub abs : ℕ → ℕ
  pub less : ℕ → ℕ → Bool
  -- `x == 0`
  pub is_zero : ℕ → Bool

-- 1.0
abbrev pub float_one : ℕ
float_one = 4607182418800017408
