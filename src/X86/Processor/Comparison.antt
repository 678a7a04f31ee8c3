-- ===== src/X86/Processor/Comparison.antt =====
-- The condition codes after a comparison, as the comparisons of numbers they stand for.
use ji_tboy.Base.{
  ℕ, ◌≡◌, refl, ap, arith, ◌==◌, ◌&&◌, ◌||◌, not, xor, ltb, some, IsU32, sub32, is_neg32, slt32,
}
use ji_tboy.X86.Processor.{compared, holds}

signed_less :
    (a b : ℕ)
    → IsU32 a
    → IsU32 b
    → xor
        (is_neg32 (sub32 a b))
        (xor (is_neg32 a) (is_neg32 b) && xor (is_neg32 a) (is_neg32 (sub32 a b)))
      ≡ slt32 a b
unfolding mathlib.Core.Bool.xor
signed_less a b h g = ground arith

pub holds-below : (a b : ℕ) → holds 2 (compared a b) ≡ some (ltb a b)
unfolding holds compared
holds-below a b = refl

pub holds-equal : (a b : ℕ) → holds 4 (compared a b) ≡ some (a == b)
unfolding holds compared
holds-equal a b = refl

pub holds-not_equal : (a b : ℕ) → holds 5 (compared a b) ≡ some (not (a == b))
unfolding holds compared
holds-not_equal a b = refl

module _ (a b : ℕ) (h : IsU32 a) (g : IsU32 b) where
  pub holds-less : holds 12 (compared a b) ≡ some (slt32 a b)
  unfolding holds compared
  holds-less = ap some (signed_less a b h g)

  pub holds-greater_equal : holds 13 (compared a b) ≡ some (not (slt32 a b))
  unfolding holds compared
  holds-greater_equal = ap (λ t. some (not t)) (signed_less a b h g)

  pub holds-less_equal : holds 14 (compared a b) ≡ some (a == b || slt32 a b)
  unfolding holds compared
  holds-less_equal = ap (λ t. some (a == b || t)) (signed_less a b h g)

  pub holds-greater : holds 15 (compared a b) ≡ some (not (a == b || slt32 a b))
  unfolding holds compared
  holds-greater = ap (λ t. some (not (a == b || t))) (signed_less a b h g)
