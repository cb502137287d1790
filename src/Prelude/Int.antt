-- ===== src/Prelude/Int.antt =====
-- C's `int` and `time_t`: integers over the native numbers, without a bound.
use Prim.Native.Nat.{ℕ, zero, suc, ◌+◌, ◌-◌}
use mathlib.Core.Bool.{Bool, false}
use trollbot.Prelude.Tests.{ltb, if◌then◌else◌, ◌==◌}

pub data ℤ : Type 0 where
  pos : ℕ → ℤ
  -- `negsuc n` is `-(n + 1)`
  negsuc : ℕ → ℤ

-- A number and an integer.
abbrev pub add_int : ℕ → ℤ → ℤ
add_int a (pos b) = pos (a + b)
add_int a (negsuc b) = if ltb b a then pos (a - suc b) else negsuc (b - a)

abbrev pub negate : ℕ → ℤ
negate zero = pos zero
negate (suc n) = negsuc n

-- `x != -1`
abbrev pub is_minus_one : ℤ → Bool
is_minus_one (pos n) = false
is_minus_one (negsuc n) = n == 0
