-- ===== src/Memory/DynamicExecutableAllocator.antt =====
-- Partitions of executable memory made on demand: src/memory/dynamic_executable_allocator.hpp. The
-- vector of owning pointers only keeps the partitions alive; the list is that of the other vector.
pub mod Regions
pub mod Grants
use ji_tboy.Base.{
  ℕ, ◌≤◌, ◌*◌, Option, none, some, List, [], ◌∷◌, ◌++◌, length, if◌then◌else◌, ltb, leb,
}
use ji_tboy.Memory.ExecutableAllocator.{ExecutableAllocator, new_allocator, add64}
use ji_tboy.Memory.ExecutableAllocator

pub record DynamicExecutableAllocator : Type 0 where
  pub allocators : List ExecutableAllocator

module _ (partition_size : ℕ) where
  -- The loop for the first viable partition, and the allocation from it or else from the new one.
  unfoldable pub alloc_first :
      ℕ → ExecutableAllocator → List ExecutableAllocator → Option ℕ × List ExecutableAllocator
  unfolding ExecutableAllocator.alloc ExecutableAllocator.get_free
  alloc_first size made [] =
      let (ptr, made') = ExecutableAllocator.alloc partition_size size made in (ptr, made' ∷ [])
  alloc_first size made (a ∷ rest) =
      let (ptr, a') = ExecutableAllocator.alloc partition_size size a in
      let (ptr_rest, rest') = alloc_first size made rest in
      if leb size (ExecutableAllocator.get_free partition_size a)
      then (ptr, a' ∷ rest)
      else (ptr_rest, a ∷ rest')

-- `std::make_unique` gives a new partition its address, VirtualQuery the page that this lies on.
module _ (partition_size page_size : ℕ) (base_address : ℕ → ℕ)
    (place : List ExecutableAllocator → ℕ) where
  -- `std::make_unique<Allocator>()`
  unfoldable pub make_allocator : List ExecutableAllocator → ExecutableAllocator
  unfolding new_allocator
  make_allocator allocators = new_allocator page_size base_address (place allocators)

  -- `alloc`: `none` where the code throws.
  unfoldable pub alloc : ℕ → DynamicExecutableAllocator → Option ℕ × DynamicExecutableAllocator
  unfolding alloc_first make_allocator
  alloc size pool =
      if ltb partition_size size
      then (none, pool)
      else (let (ptr, allocators) =
            alloc_first partition_size size (make_allocator pool.allocators) pool.allocators in
          (ptr, record pool { allocators = allocators }))
