-- ===== src/Common/Int64.antt =====
-- Go's `int64`: integers, whose products wrap around.
use Prim.Native.Nat.{ℕ, ◌-◌, ◌*◌, ◌%◌}
use mathlib.Core.Bool.{Bool, true, false}
use cnf_nsm.Common.Tests.{ltb, if◌then◌else◌}

pub data ℤ : Type 0 where
  pos : ℕ → ℤ
  -- `negsuc n` is the negative of `suc n`
  negsuc : ℕ → ℤ

abbrev pub is_positive : ℤ → Bool
is_positive (pos n) = ltb 0 n
is_positive (negsuc n) = false

abbrev pub is_negative : ℤ → Bool
is_negative (pos n) = false
is_negative (negsuc n) = true

-- The two's complement of 64 bits, and the integer that it stands for.
unfoldable pub to_bits : ℤ → ℕ
to_bits (pos n) = n % 18446744073709551616
to_bits (negsuc n) = 18446744073709551615 - n % 18446744073709551616

unfoldable pub of_bits : ℕ → ℤ
of_bits n = if ltb n 9223372036854775808 then pos n else negsuc (18446744073709551615 - n)

-- The product of two `int64`.
unfoldable pub mul_int64 : ℤ → ℤ → ℤ
mul_int64 x y = of_bits ((to_bits x * to_bits y) % 18446744073709551616)
