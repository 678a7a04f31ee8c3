-- ===== src/Bits/Field.antt =====
-- Bit fields: `|` and `&` act on the high part and on the low `k` bits apart, so a `|` of
-- disjoint fields is a sum and an `&` with a low mask is a remainder.
use Prim.Native.Nat.{bit_and-bitwise, bit_or-bitwise}
use native.Mathlib.Nat.{pow-suc, one-le-pow}
use ji_tboy.Base.{
  ℕ, zero, suc, ◌+◌, ◌-◌, ◌*◌, ◌/◌, ◌%◌, ◌^◌, ◌≤◌, ◌<◌, bit_and, bit_or, ◌≡◌, refl, ap, ap₂, ◌∙◌,
  arith,
}
use ji_tboy.Bits.Digit.{bit_and_digit, bit_or_digit}

double : (a k : ℕ) → a * 2 ^ suc k ≡ 2 * (a * 2 ^ k)
double a k = omega (arith, ap (λ (t : ℕ). a * t) (pow-suc 2 k))

half : (a r k : ℕ) → (a * 2 ^ suc k + r) / 2 ≡ a * 2 ^ k + r / 2
half a r k = omega (arith, double a k)

-- By a count of the digits left, since each equation halves the number.
or_zero_upto : (n a : ℕ) → a ≤ n → bit_or a 0 ≡ a
or_zero_upto n zero h = refl
or_zero_upto zero (suc a) h = absurd (omega arith)
or_zero_upto (suc n) (suc a) h =
    omega (arith, bit_or_digit (suc a) 0, or_zero_upto n (suc a / 2) (omega arith))

pub bit_or-zero : (a : ℕ) → bit_or a 0 ≡ a
bit_or-zero a = or_zero_upto a a (omega arith)

pub zero-bit_or : (b : ℕ) → bit_or 0 b ≡ b
zero-bit_or b = bit_or-bitwise 0 b

and_zero_upto : (n a : ℕ) → a ≤ n → bit_and a 0 ≡ 0
and_zero_upto n zero h = refl
and_zero_upto zero (suc a) h = absurd (omega arith)
and_zero_upto (suc n) (suc a) h =
    omega (arith, bit_and_digit (suc a) 0, and_zero_upto n (suc a / 2) (omega arith))

pub bit_and-zero : (a : ℕ) → bit_and a 0 ≡ 0
bit_and-zero a = and_zero_upto a a (omega arith)

pub zero-bit_and : (b : ℕ) → bit_and 0 b ≡ 0
zero-bit_and b = bit_and-bitwise 0 b

or_comm_upto : (n a b : ℕ) → a ≤ n → b ≤ n → bit_or a b ≡ bit_or b a
or_comm_upto n zero b h g = omega (arith, bit_or-zero b, zero-bit_or b)
or_comm_upto zero (suc a) b h g = absurd (omega arith)
or_comm_upto (suc n) (suc a) b h g = omega (
  arith,
  bit_or_digit (suc a) b,
  bit_or_digit b (suc a),
  or_comm_upto n (suc a / 2) (b / 2) (omega arith) (omega arith),
)

pub bit_or_comm : (a b : ℕ) → bit_or a b ≡ bit_or b a
bit_or_comm a b = or_comm_upto (a + b) a b (omega arith) (omega arith)

and_comm_upto : (n a b : ℕ) → a ≤ n → b ≤ n → bit_and a b ≡ bit_and b a
and_comm_upto n zero b h g = omega (arith, bit_and-zero b, zero-bit_and b)
and_comm_upto zero (suc a) b h g = absurd (omega arith)
and_comm_upto (suc n) (suc a) b h g = omega (
  arith,
  bit_and_digit (suc a) b,
  bit_and_digit b (suc a),
  and_comm_upto n (suc a / 2) (b / 2) (omega arith) (omega arith),
)

pub bit_and_comm : (a b : ℕ) → bit_and a b ≡ bit_and b a
bit_and_comm a b = and_comm_upto (a + b) a b (omega arith) (omega arith)

pub bit_or_split :
    (k a b r s : ℕ)
    → r < 2 ^ k
    → s < 2 ^ k
    → bit_or (a * 2 ^ k + r) (b * 2 ^ k + s) ≡ bit_or a b * 2 ^ k + bit_or r s
bit_or_split zero a b zero zero h g = ground arith
bit_or_split zero a b (suc r) s h g = absurd (omega arith)
bit_or_split zero a b zero (suc s) h g = absurd (omega arith)
bit_or_split (suc k) a b r s h g = omega (
  arith,
  pow-suc 2 k,
  double a k,
  double b k,
  double (bit_or a b) k,
  ap₂ bit_or (half a r k) (half b s k),
  bit_or_digit (a * 2 ^ suc k + r) (b * 2 ^ suc k + s),
  bit_or_digit r s,
  bit_or_split k a b (r / 2) (s / 2) (omega (arith, pow-suc 2 k)) (omega (arith, pow-suc 2 k)),
)

pub bit_and_split :
    (k a b r s : ℕ)
    → r < 2 ^ k
    → s < 2 ^ k
    → bit_and (a * 2 ^ k + r) (b * 2 ^ k + s) ≡ bit_and a b * 2 ^ k + bit_and r s
bit_and_split zero a b zero zero h g = ground arith
bit_and_split zero a b (suc r) s h g = absurd (omega arith)
bit_and_split zero a b zero (suc s) h g = absurd (omega arith)
bit_and_split (suc k) a b r s h g = omega (
  arith,
  pow-suc 2 k,
  double a k,
  double b k,
  double (bit_and a b) k,
  ap₂ bit_and (half a r k) (half b s k),
  bit_and_digit (a * 2 ^ suc k + r) (b * 2 ^ suc k + s),
  bit_and_digit r s,
  bit_and_split k a b (r / 2) (s / 2) (omega (arith, pow-suc 2 k)) (omega (arith, pow-suc 2 k)),
)

-- `(q << k) | r` and `r | (q << k)` are sums when `r` fits `k` bits.
pub bit_or_high : (k q r : ℕ) → r < 2 ^ k → bit_or (q * 2 ^ k) r ≡ q * 2 ^ k + r
bit_or_high k q r h =
    ground (arith, bit_or_split k q 0 0 r, bit_or-zero q, zero-bit_or r, one-le-pow k 2)

pub bit_or_low : (k r q : ℕ) → r < 2 ^ k → bit_or r (q * 2 ^ k) ≡ q * 2 ^ k + r
bit_or_low k r q h = bit_or_comm r (q * 2 ^ k) ∙ bit_or_high k q r h

pub and_ones : (k r : ℕ) → r < 2 ^ k → bit_and r (2 ^ k - 1) ≡ r
and_ones zero zero h = refl
and_ones zero (suc r) h = absurd (omega arith)
and_ones (suc k) r h =
    ground (arith, pow-suc 2 k, one-le-pow k 2, bit_and_digit r (2 ^ suc k - 1), and_ones k (r / 2))

-- A mask of `k` ones is the remainder by 2 ^ k, on either side.
pub bit_and_mask : (k a : ℕ) → bit_and a (2 ^ k - 1) ≡ a % 2 ^ k
bit_and_mask k a = ground (
  arith,
  one-le-pow k 2,
  bit_and_split k (a / 2 ^ k) 0 (a % 2 ^ k) (2 ^ k - 1),
  bit_and-zero (a / 2 ^ k),
  and_ones k (a % 2 ^ k),
)

pub mask_bit_and : (k a : ℕ) → bit_and (2 ^ k - 1) a ≡ a % 2 ^ k
mask_bit_and k a = bit_and_comm (2 ^ k - 1) a ∙ bit_and_mask k a

-- `word | (r << k)`, where the word has `w` zero digits above its `k` low ones, puts `r` there.
pub bit_or_place :
    (k w q r c word : ℕ)
    → word ≡ q * 2 ^ w * 2 ^ k + c
    → r < 2 ^ w
    → c < 2 ^ k
    → bit_or word (r * 2 ^ k) ≡ (q * 2 ^ w + r) * 2 ^ k + c
bit_or_place k w q r c word e h g = rw e (
    ground
      (arith, one-le-pow k 2, bit_or_split k (q * 2 ^ w) r c 0, bit_or-zero c, bit_or_high w q r))
