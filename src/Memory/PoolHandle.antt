-- ===== src/Memory/PoolHandle.antt =====
-- Handles that return their object to a pool when they are destroyed: src/memory/pool_handle.hpp, and
-- `borrow` of src/memory/fixed_pool.hpp. A pointer is an address, and the null pointer `none`; the one
-- pool that handles point to here is passed along.
use ji_tboy.Base.{ℕ, ◌≤◌, ◌≡◌, refl, arith, ==-ne, Option, none, some, List, ◌∷◌, length}
use ji_tboy.Memory.FixedPool.{FixedPool, get, release, pop}

pub record PoolHandle : Type 0 where
  pub obj : Option ℕ
  pub target : Option ℕ

-- The constructor from a handle that is moved: the new one, and what the other becomes
unfoldable pub move : PoolHandle → PoolHandle × PoolHandle
move handle = (handle, record { obj = none; target = none })

unfoldable pub release_both : ℕ → Option ℕ → Option ℕ → FixedPool → Option FixedPool
unfolding release
release_both size (some obj) (some target) p = release size obj p
release_both size _ _ p = some p

-- The destructor, on the pool of `size` objects that the handle points to; `none` where `release` throws
unfoldable pub destroy : ℕ → PoolHandle → FixedPool → Option FixedPool
unfolding release_both
destroy size handle p = release_both size handle.obj handle.target p

unfoldable handle_of : ℕ → Option (ℕ × FixedPool) → Option (PoolHandle × FixedPool)
handle_of pool none = none
handle_of pool (some (ptr, p)) = some (record { obj = some ptr; target = some pool }, p)

-- `borrow` of the pool at the address `pool`
unfoldable pub borrow : ℕ → FixedPool → Option (PoolHandle × FixedPool)
unfolding handle_of get
borrow pool p = handle_of pool (get p)

-- After the code on the right, that on the left
abbrev pub then_destroy : ℕ → PoolHandle → Option FixedPool → Option FixedPool
then_destroy size handle none = none
then_destroy size handle (some p) = destroy size handle p

-- A handle that is borrowed from a pool that holds no more objects than it has room for, and then moved,
-- returns its object exactly once, whichever of the two handles is destroyed first: the pool is as it
-- was before.
pub borrow-move :
    (size pool ptr : ℕ) (rest : List ℕ)
    → length (ptr ∷ rest) ≤ size
    → (handle : PoolHandle) × (p : FixedPool) × (borrow pool (record { ptr_stack = ptr ∷ rest })
        ≡ some (handle, p))
      × (then_destroy size (move handle).1 (destroy size (move handle).0 p)
          ≡ some (record { ptr_stack = ptr ∷ rest }))
      × (then_destroy size (move handle).0 (destroy size (move handle).1 p)
          ≡ some (record { ptr_stack = ptr ∷ rest }))
unfolding borrow destroy move release_both handle_of get pop release
borrow-move size pool ptr rest h =
    let free = ==-ne (length rest) size (omega arith) in
    (
      record { obj = some ptr; target = some pool },
      record { ptr_stack = rest },
      refl,
      rw free refl,
      rw free refl,
    )
