-- ===== src/Bits/Digit.antt =====
-- One equation for the lowest binary digit of each operation.
use Prim.Native.Nat.{min, max, differ, digits, bit_and-bitwise, bit_or-bitwise, bit_xor-bitwise}
use ji_tboy.Base.{ℕ, zero, suc, ◌+◌, ◌*◌, ◌/◌, ◌%◌, ◌≤◌, bit_and, bit_or, bit_xor, ◌≡◌, refl, arith}

-- Two amounts of fuel, each at least the number, give the same digits.
module _ (rest : ℕ → ℕ) (op : ℕ → ℕ → ℕ) where
  same_digits : (a b k n : ℕ) → a ≤ k → a ≤ n → digits rest op k a b ≡ digits rest op n a b
  same_digits zero b zero zero h g = refl
  same_digits zero b zero (suc n) h g = refl
  same_digits zero b (suc k) zero h g = refl
  same_digits zero b (suc k) (suc n) h g = refl
  same_digits (suc a) b zero n h g = absurd (omega arith)
  same_digits (suc a) b (suc k) zero h g = absurd (omega arith)
  same_digits (suc a) b (suc k) (suc n) h g =
      omega (arith, same_digits (suc a / 2) (b / 2) k n (omega arith) (omega arith))

  digit :
      (a b : ℕ)
      → digits rest op (suc a) (suc a) b
        ≡ digits rest op (suc a / 2) (suc a / 2) (b / 2) * 2 + op (suc a % 2) (b % 2)
  digit a b =
      omega (arith, same_digits (suc a / 2) (b / 2) a (suc a / 2) (omega arith) (omega arith))

pub bit_and_digit : (a b : ℕ) → bit_and a b ≡ bit_and (a / 2) (b / 2) * 2 + min (a % 2) (b % 2)
bit_and_digit zero b = simp bit_and-bitwise (omega arith)
bit_and_digit (suc a) b = simp bit_and-bitwise (digit (λ y. 0) min a b)

pub bit_or_digit : (a b : ℕ) → bit_or a b ≡ bit_or (a / 2) (b / 2) * 2 + max (a % 2) (b % 2)
bit_or_digit zero b = simp bit_or-bitwise (omega arith)
bit_or_digit (suc a) b = simp bit_or-bitwise (digit (λ y. y) max a b)

pub bit_xor_digit : (a b : ℕ) → bit_xor a b ≡ bit_xor (a / 2) (b / 2) * 2 + differ (a % 2) (b % 2)
bit_xor_digit zero b = simp bit_xor-bitwise (omega arith)
bit_xor_digit (suc a) b = simp bit_xor-bitwise (digit (λ y. y) differ a b)
