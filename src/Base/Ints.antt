-- ===== src/Base/Ints.antt =====
-- A C int as its 32-bit pattern, a number below 2 ^ 32. Sums and products wrap with % 2 ^ 32; quotient
-- and remainder, by a divisor that is not negative, go towards zero.
use Prim.Native.Nat.{ℕ, ◌-◌, ◌/◌, ◌%◌, ◌^◌}
use mathlib.Core.Bool.{Bool}
use peachos.Base.Tests.{leb, if◌then◌else◌}

abbrev pub is_negative : ℕ → Bool
is_negative a = leb (2 ^ 31) a

abbrev pub int_div : ℕ → ℕ → ℕ
int_div a b = if is_negative a then (2 ^ 32 - (2 ^ 32 - a) / b) % 2 ^ 32 else a / b

abbrev pub int_rem : ℕ → ℕ → ℕ
int_rem a b = if is_negative a then (2 ^ 32 - (2 ^ 32 - a) % b) % 2 ^ 32 else a % b
