-- ===== src/Base/Words.antt =====
-- 32-bit words. A `uint32_t` and the bit pattern of an `int32_t` are both numbers below 2 ^ 32.
use Prim.Native.Nat.{ℕ, ◌+◌, ◌-◌, ◌%◌, ◌^◌}
use mathlib.Core.Bool.{Bool}
use fireball_os.Base.Tests.{leb}

abbrev pub u32 : ℕ
u32 = 2 ^ 32

abbrev pub add32 : ℕ → ℕ → ℕ
add32 a b = (a + b) % u32

abbrev pub sub32 : ℕ → ℕ → ℕ
sub32 a b = (a + u32 - b) % u32

-- the pattern of -1, which is also `RET_FAILURE`
abbrev pub minus_one : ℕ
minus_one = 0xffff_ffff

abbrev pub ret_failure : ℕ
ret_failure = minus_one

abbrev pub ret_success : ℕ
ret_success = 0

-- the sign test of an `int32_t`
abbrev pub is_negative : ℕ → Bool
is_negative w = leb (2 ^ 31) w
