-- ===== src/Memory/FixedPool/Slots.antt =====
-- The slots of src/memory/fixed_pool.hpp.
use ji_tboy.Base.{
  hit-other, hit-cases, occurrences, ℕ, zero, suc, ◌+◌, ◌*◌, ◌≤◌, ◌<◌, ◌≡◌, refl, arith, length,
  inl, inr,
}
use ji_tboy.Memory.FixedPool.{slots}

slots-below :
    (pool width n x : ℕ) → pool + n * width ≤ x → 0 < width → occurrences x (slots pool width n) ≡ 0
unfolding slots occurrences
slots-below pool width zero x h w = refl
slots-below pool width (suc n) x h w =
    let rest = slots-below pool width n x (omega arith) w in
    let other = hit-other x (pool + n * width) (omega arith) in omega arith

-- No two of the slots are the same.
pub slots-once : (pool width n x : ℕ) → 0 < width → occurrences x (slots pool width n) ≤ 1
unfolding slots occurrences
slots-once pool width zero x w = omega arith
slots-once pool width (suc n) x w = elim (hit-cases x (pool + n * width)) [
  | inl e ↦ let rest = slots-once pool width n x w in omega arith
  | inr e ↦
      let same = e.1 in let rest = slots-below pool width n x (omega arith) w in omega (arith, e.0)
]

pub length-slots : (pool width n : ℕ) → length (slots pool width n) ≡ n
unfolding slots
length-slots pool width zero = refl
length-slots pool width (suc n) = let rest = length-slots pool width n in omega arith
