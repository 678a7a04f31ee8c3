-- ===== src/Bits/Bound.antt =====
-- The operations stay within the width of their arguments.
use Prim.Native.Nat.{differ}
use native.Mathlib.Nat.{pow-suc}
use ji_tboy.Base.{ℕ, zero, suc, ◌/◌, ◌%◌, ◌^◌, ◌<◌, ◌≡◌, refl, bit_and, bit_or, bit_xor, arith}
use ji_tboy.Bits.Digit.{bit_and_digit, bit_or_digit, bit_xor_digit}
use ji_tboy.Bits.Field.{zero-bit_and}

pub bit_or-lt : (k a b : ℕ) → a < 2 ^ k → b < 2 ^ k → bit_or a b < 2 ^ k
bit_or-lt zero zero zero h g = omega arith
bit_or-lt zero (suc a) b h g = absurd (omega arith)
bit_or-lt zero zero (suc b) h g = absurd (omega arith)
bit_or-lt (suc k) a b h g =
    omega (arith, pow-suc 2 k, bit_or_digit a b, bit_or-lt k (a / 2) (b / 2))

pub bit_and-lt : (k a b : ℕ) → a < 2 ^ k → bit_and a b < 2 ^ k
bit_and-lt zero zero b h = omega (arith, zero-bit_and b)
bit_and-lt zero (suc a) b h = absurd (omega arith)
bit_and-lt (suc k) a b h =
    omega (arith, pow-suc 2 k, bit_and_digit a b, bit_and-lt k (a / 2) (b / 2))

differ-lt : (a b : ℕ) → a < 2 → b < 2 → differ a b < 2
differ-lt zero b h g = omega arith
differ-lt (suc zero) zero h g = omega arith
differ-lt (suc zero) (suc zero) h g = omega arith
differ-lt (suc zero) (suc (suc b)) h g = absurd (omega arith)
differ-lt (suc (suc a)) b h g = absurd (omega arith)

differ_self : (a : ℕ) → a < 2 → differ a a ≡ 0
differ_self zero h = refl
differ_self (suc zero) h = refl
differ_self (suc (suc a)) h = absurd (omega arith)

pub bit_xor-lt : (k a b : ℕ) → a < 2 ^ k → b < 2 ^ k → bit_xor a b < 2 ^ k
bit_xor-lt zero zero zero h g = omega arith
bit_xor-lt zero (suc a) b h g = absurd (omega arith)
bit_xor-lt zero zero (suc b) h g = absurd (omega arith)
bit_xor-lt (suc k) a b h g =
    ground (
      arith,
      pow-suc 2 k,
      bit_xor_digit a b,
      differ-lt (a % 2) (b % 2),
      bit_xor-lt k (a / 2) (b / 2),
    )

bit_xor_self : (k a : ℕ) → a < 2 ^ k → bit_xor a a ≡ 0
bit_xor_self zero zero h = refl
bit_xor_self zero (suc a) h = absurd (omega arith)
bit_xor_self (suc k) a h =
    ground (arith, pow-suc 2 k, bit_xor_digit a a, differ_self (a % 2), bit_xor_self k (a / 2))

lt_pow : (a : ℕ) → a < 2 ^ a
lt_pow zero = omega arith
lt_pow (suc a) = omega (arith, pow-suc 2 a, lt_pow a)

pub bit_xor_same : (a : ℕ) → bit_xor a a ≡ 0
bit_xor_same a = bit_xor_self a a (lt_pow a)
