-- ===== src/Base/Count.antt =====
-- How often a number is in a list.
use Prim.Native.Nat.{ℕ, ◌+◌}
use mathlib.Core.Path.{◌≡◌, ap}
use mathlib.Core.Logic.{◌≢◌, ◌⊎◌}
use mathlib.Core.List.{List, [], ◌∷◌, ◌++◌}
use native.Mathlib.Omega.{arith}
use ji_tboy.Base.Tests.{◌==◌, ==-ne, ==-self, if◌then◌else◌}

-- 1 for the same number, 0 for another
unfoldable pub hit : ℕ → ℕ → ℕ
hit x y = if x == y then 1 else 0

pub hit-other : (x y : ℕ) → x ≢ y → hit x y ≡ 0
unfolding hit
hit-other x y h = ap (λ c. if c then 1 else 0) (==-ne x y h)

pub hit_self : (x : ℕ) → hit x x ≡ 1
unfolding hit
hit_self x = ap (λ c. if c then 1 else 0) (==-self x)

pub hit-cases : (x y : ℕ) → (hit x y ≡ 0) ⊎ ((hit x y ≡ 1) × (x ≡ y))
unfolding hit
hit-cases x y = ground arith

-- How often `x` is in a list
unfoldable pub occurrences : ℕ → List ℕ → ℕ
unfolding hit
occurrences x [] = 0
occurrences x (y ∷ ys) = hit x y + occurrences x ys

pub occurrences-append :
    (x : ℕ) (xs ys : List ℕ) → occurrences x (xs ++ ys) ≡ occurrences x xs + occurrences x ys
unfolding occurrences
occurrences-append x [] ys = omega arith
occurrences-append x (y ∷ xs) ys = let rest = occurrences-append x xs ys in omega arith
