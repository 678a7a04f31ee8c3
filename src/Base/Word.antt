-- ===== src/Base/Word.antt =====
-- C++ fixed-width integers as native numbers. A value of an unsigned type is below 2 ^ w; a value
-- of a signed type is held as its two's complement pattern of the same width, and `to_int*` says
-- which integer that is. Conversions and arithmetic wrap by `%`.
use Prim.Native.Nat.{ℕ, ◌+◌, ◌-◌, ◌*◌, ◌/◌, ◌%◌, ◌^◌, ◌<◌}
use mathlib.Core.Bool.{Bool}
use ji_tboy.Base.Tests.{ltb, if◌then◌else◌}

abbrev pub u8 : ℕ → ℕ
u8 n = n % 0x100

abbrev pub u16 : ℕ → ℕ
u16 n = n % 0x1_0000

abbrev pub u32 : ℕ → ℕ
u32 n = n % 0x1_0000_0000

abbrev pub IsU32 : ℕ → Type 0
IsU32 n = n < 0x1_0000_0000

-- a + b, a - b and ~a at `uint32_t`; `-` on ℕ stops at 0, hence the modulus.
abbrev pub add32 : ℕ → ℕ → ℕ
add32 a b = u32 (a + b)

abbrev pub sub32 : ℕ → ℕ → ℕ
sub32 a b = u32 (a + 0x1_0000_0000 - b)

abbrev pub not32 : ℕ → ℕ
not32 a = 0xffff_ffff - a

infixl 75 ◌<<<◌ ◌>>>◌
abbrev pub ◌<<<◌ : ℕ → ℕ → ℕ
x <<< k = x * 2 ^ k

abbrev pub ◌>>>◌ : ℕ → ℕ → ℕ
x >>> k = x / 2 ^ k

-- `static_cast<uint32_t>` of an `int8_t` and of an `int16_t`: the sign is extended.
abbrev pub sext8 : ℕ → ℕ
sext8 n = if ltb n 0x80 then n else n + 0xffff_ff00

abbrev pub sext16 : ℕ → ℕ
sext16 n = if ltb n 0x8000 then n else n + 0xffff_0000

-- `a < b` on two `int32_t`: adding 2 ^ 31 modulo 2 ^ 32 carries the signed order to the unsigned.
abbrev pub flip_sign : ℕ → ℕ
flip_sign a = u32 (a + 0x8000_0000)

abbrev pub slt32 : ℕ → ℕ → Bool
slt32 a b = ltb (flip_sign a) (flip_sign b)

-- The magnitude of the `int32_t` with this pattern, and whether it is negative.
abbrev pub is_neg32 : ℕ → Bool
is_neg32 a = ltb 0x7fff_ffff a

abbrev pub abs32 : ℕ → ℕ
abs32 a = if is_neg32 a then 0x1_0000_0000 - a else a

-- `int32_t >> k`: an arithmetic shift rounds towards minus infinity.
abbrev pub sar32 : ℕ → ℕ → ℕ
sar32 a k = if is_neg32 a then not32 (not32 a >>> k) else a >>> k
