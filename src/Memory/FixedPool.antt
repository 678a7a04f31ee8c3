-- ===== src/Memory/FixedPool.antt =====
-- A pool of a fixed number of objects: src/memory/fixed_pool.hpp. Construction and destruction of the
-- objects are those of the type that the pool is used with.
pub mod Slots
pub mod Clients
use ji_tboy.Base.{
  ℕ, zero, suc, ◌+◌, ◌*◌, ◌==◌, Option, none, some, List, [], ◌∷◌, length, if◌then◌else◌,
}

-- The first `_size` entries of `_ptr_stack`, the last of them first; nothing reads the others.
pub record FixedPool : Type 0 where
  pub ptr_stack : List ℕ

-- `&_pool[i]` for the first `n` indices, for objects of `width` bytes
unfoldable pub slots : ℕ → ℕ → ℕ → List ℕ
slots pool width zero = []
slots pool width (suc n) = (pool + n * width) ∷ slots pool width n

-- The constructor, for what the allocator returns
unfoldable pub initial : ℕ → ℕ → ℕ → FixedPool
unfolding slots
initial pool width size = record { ptr_stack = slots pool width size }

unfoldable pub pop : List ℕ → Option (ℕ × FixedPool)
pop [] = none
pop (ptr ∷ rest) = some (ptr, record { ptr_stack = rest })

-- `get`: `none` where the code throws.
unfoldable pub get : FixedPool → Option (ℕ × FixedPool)
unfolding pop
get p = pop p.ptr_stack

-- `release`, in a pool of `size` objects
unfoldable pub release : ℕ → ℕ → FixedPool → Option FixedPool
release size ptr p =
    if length p.ptr_stack == size then none else some (record { ptr_stack = ptr ∷ p.ptr_stack })
