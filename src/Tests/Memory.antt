-- ===== src/Tests/Memory.antt =====
-- Runs of src/memory: a partition that is almost used up and a second one.
use ji_tboy.Base.{ℕ, ◌+◌, ◌≤◌, ◌≡◌, inr, refl, none, some, List, [], ◌∷◌, arith}
use ji_tboy.Memory.ExecutableAllocator.{ExecutableAllocator, get_dead_space}
use ji_tboy.Memory.PoolHandle.{PoolHandle, move, destroy, borrow, then_destroy, borrow-move}
use ji_tboy.Memory.FixedPool.{FixedPool, initial, get, release}
use ji_tboy.Memory.FixedPool.Clients.{
  Clients, Steps, gets, releases, stop, step, start, IsFresh, get-IsFresh,
}
use ji_tboy.Memory.DynamicExecutableAllocator.{DynamicExecutableAllocator, alloc}
use ji_tboy.Memory.DynamicExecutableAllocator.Regions.{
  IsClear, ArePartitions, IsGranted, IsDisjoint,
}
use ji_tboy.Memory.DynamicExecutableAllocator.Grants.{alloc-IsGranted}

abbrev first_partition : ExecutableAllocator
first_partition = record { buffer = 0x10000; consumed = 4000; dead_space = 0 }

abbrev one_partition : DynamicExecutableAllocator
one_partition = record { allocators = first_partition ∷ [] }

-- The operating system: pages of 4096 bytes, all partitions asked for lie at 0x20000.
abbrev next_place : List ExecutableAllocator → ℕ
next_place _ = 0x20000

abbrev same_page : ℕ → ℕ
same_page at_address = at_address

alloc_small : (alloc 4096 4096 same_page next_place 96 one_partition).0 ≡ some 69536
unfolding alloc
alloc_small = refl

alloc_large : (alloc 4096 4096 same_page next_place 97 one_partition).0 ≡ some 0x20000
unfolding alloc
alloc_large = refl

alloc_larger : (alloc 4096 4096 same_page next_place 4097 one_partition).0 ≡ none
unfolding alloc
alloc_larger = refl

one_partition-ArePartitions : ArePartitions 4096 one_partition.allocators
unfolding ArePartitions IsClear
one_partition-ArePartitions = (record { fits = omega arith; ends = omega arith }, tt, tt)

next_place-IsClear : IsClear 4096 (next_place one_partition.allocators) one_partition.allocators
unfolding IsClear IsDisjoint
next_place-IsClear = (inr (omega arith), tt)

no_dead_space : get_dead_space 4096 same_page 0x20000 + 200 ≤ 4096
unfolding get_dead_space
no_dead_space = omega arith

alloc-IsGranted_example : IsGranted 4096 200 one_partition.allocators (
  (alloc 4096 4096 same_page next_place 200 one_partition).0,
  (alloc 4096 4096 same_page next_place 200 one_partition).1.allocators,
)
alloc-IsGranted_example =
    alloc-IsGranted 4096 4096 same_page next_place 200 one_partition one_partition-ArePartitions
      next_place-IsClear (omega arith) no_dead_space

-- Three objects of 8 bytes: two are taken, and the first of them is released.
abbrev one_held : Clients
one_held = record { held = 108 ∷ []; pool = record { ptr_stack = 116 ∷ 100 ∷ [] } }

one_held-Steps : Steps 3 (start 100 8 3) one_held
unfolding initial get release
one_held-Steps =
    step (step (step stop (gets 116 refl)) (gets 108 refl)) (releases (108 ∷ []) [] 116 refl)

get-IsFresh_example : IsFresh (108 ∷ []) (get (record { ptr_stack = 116 ∷ 100 ∷ [] }))
get-IsFresh_example = get-IsFresh 100 8 3 one_held (omega arith) one_held-Steps (omega arith)

-- A pool of four objects of 8 bytes, of which two are in use
borrow-move_example :
    (handle : PoolHandle) × (p : FixedPool) × (borrow 0x900
        (record { ptr_stack = 0x708 ∷ 0x700 ∷ [] })
      ≡ some (handle, p))
    × (then_destroy 4 (move handle).1 (destroy 4 (move handle).0 p)
        ≡ some (record { ptr_stack = 0x708 ∷ 0x700 ∷ [] }))
    × (then_destroy 4 (move handle).0 (destroy 4 (move handle).1 p)
        ≡ some (record { ptr_stack = 0x708 ∷ 0x700 ∷ [] }))
borrow-move_example = borrow-move 4 0x900 0x708 (0x700 ∷ []) (omega arith)
