-- ===== src/Base/Word.antt =====
-- The widths of C's integers: wrap-around, conversions, and the signed reading of a bit pattern.
use Prim.Native.Nat.{ℕ, ◌+◌, ◌-◌, ◌%◌, ◌^◌}
use mathlib.Core.Path.{◌≡◌}
use native.Mathlib.Omega.{arith}
use honey_potion.Base.Checks.{ltb, if◌then◌else◌}
use honey_potion.Base.Int.{ℤ, pos, negsuc, ◌≤ℤ◌, ◌<ℤ◌, ◌+ℤ◌, ◌-ℤ◌, ◌*ℤ◌}

abbrev pub u8 : ℕ → ℕ
u8 n = n % 2 ^ 8

abbrev pub u16 : ℕ → ℕ
u16 n = n % 2 ^ 16

abbrev pub u32 : ℕ → ℕ
u32 n = n % 2 ^ 32

abbrev pub u64 : ℕ → ℕ
u64 n = n % 2 ^ 64

-- `uint64_t` subtraction: `-` on ℕ stops at 0, so the modulus is added first.
abbrev pub sub64 : ℕ → ℕ → ℕ
sub64 a b = (a + 2 ^ 64 - b) % 2 ^ 64

-- The conversion of an integer to `unsigned` (32 bits).
abbrev pub to_unsigned : ℤ → ℕ
to_unsigned (pos n) = n % 2 ^ 32
to_unsigned (negsuc n) = 2 ^ 32 - 1 - n % 2 ^ 32

-- The bit pattern of an integer in 64 bits, and the `long` that a pattern stands for.
abbrev pub to_bits64 : ℤ → ℕ
to_bits64 (pos n) = n % 2 ^ 64
to_bits64 (negsuc n) = 2 ^ 64 - 1 - n % 2 ^ 64

abbrev pub signed64 : ℕ → ℤ
signed64 w = if ltb w (2 ^ 63) then pos w else negsuc (2 ^ 64 - w - 1)

abbrev pub to_bits32 : ℤ → ℕ
to_bits32 = to_unsigned

abbrev pub signed32 : ℕ → ℤ
signed32 w = if ltb w (2 ^ 31) then pos w else negsuc (2 ^ 32 - w - 1)

-- The value that a 64-bit register holds after an operation whose exact result is `z`.
unfoldable pub s64 : ℤ → ℤ
s64 z = signed64 (to_bits64 z)

-- The same for an `int`.
unfoldable pub s32 : ℤ → ℤ
s32 z = signed32 (to_bits32 z)

abbrev pub IsLong : ℤ → Type 0
IsLong z = (negsuc (2 ^ 63 - 1) ≤ℤ z) × (z <ℤ pos (2 ^ 63))

abbrev pub IsInt : ℤ → Type 0
IsInt z = (negsuc (2 ^ 31 - 1) ≤ℤ z) × (z <ℤ pos (2 ^ 31))

pub s64-eq : (z : ℤ) → IsLong z → s64 z ≡ z
unfolding s64
s64-eq z h = ground arith

pub s32-eq : (z : ℤ) → IsInt z → s32 z ≡ z
unfolding s32
s32-eq z h = ground arith

abbrev pub add_long : ℤ → ℤ → ℤ
add_long a b = s64 (a +ℤ b)

abbrev pub sub_long : ℤ → ℤ → ℤ
sub_long a b = s64 (a -ℤ b)

abbrev pub mul_long : ℤ → ℤ → ℤ
mul_long a b = s64 (a *ℤ b)
