-- ===== src/Prelude/Words.antt =====
-- Fixed-width unsigned arithmetic of C on native numbers, and the casts to int32_t.
use Prim.Native.Nat.{ℕ, ◌+◌, ◌-◌, ◌/◌, ◌*◌, ◌%◌, ◌^◌}
use mathlib.Core.Bool.{Bool, true, false}
use msgsrvd.Prelude.Tests.{ltb, ◌==◌, if◌then◌else◌}

-- Truncation to uint8_t, uint16_t, uint32_t and uint64_t.
abbrev pub u8 : ℕ → ℕ
u8 n = n % 2 ^ 8

abbrev pub u16 : ℕ → ℕ
u16 n = n % 2 ^ 16

abbrev pub u32 : ℕ → ℕ
u32 n = n % 2 ^ 32

abbrev pub u64 : ℕ → ℕ
u64 n = n % 2 ^ 64

-- `n - 1` on uint64_t, which wraps at 0.
abbrev pub pred64 : ℕ → ℕ
pred64 n = u64 (n + (2 ^ 64 - 1))

-- The integers, under the library's names: `negsuc n` is -(n + 1).
pub data ℤ : Type 0 where
  pos : ℕ → ℤ
  negsuc : ℕ → ℤ

-- `(int32_t)x` of a uint32_t: the bit pattern read as two's complement.
abbrev pub int32 : ℕ → ℤ
int32 x = if ltb x (2 ^ 31) then pos x else negsuc (2 ^ 32 - x - 1)

-- `(x + 7) & ~7` where x is not negative and x + 7 does not overflow.
abbrev pub round_up8 : ℕ → ℕ
round_up8 x = (x + 7) / 8 * 8

-- `flags & bit` as a test, and `flags | bit`, for a mask of one bit.
abbrev pub has : ℕ → ℕ → Bool
has bit flags = if (flags / bit) % 2 == 1 then true else false

abbrev pub with_bit : ℕ → ℕ → ℕ
with_bit bit flags = if has bit flags then flags else flags + bit
