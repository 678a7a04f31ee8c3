-- ===== src/Memory/DynamicExecutableAllocator/Regions.antt =====
-- The regions that src/memory/dynamic_executable_allocator.hpp hands out.
use ji_tboy.Base.{ℕ, ◌+◌, ◌≤◌, ◌<◌, ◌⊎◌, inl, inr, Option, none, some, List, [], ◌∷◌, arith}
use ji_tboy.Memory.ExecutableAllocator.{ExecutableAllocator}

-- The regions of `n` bytes at `p` and of `m` bytes at `q` have no byte in common.
unfoldable pub IsDisjoint : ℕ → ℕ → ℕ → ℕ → Type 0
IsDisjoint p n q m = (p + n ≤ q) ⊎ (q + m ≤ p)

module _ (partition_size : ℕ) where
  -- A partition lies below the end of the address space and has not given out more than it has.
  pub record IsPartition (a : ExecutableAllocator) : Type 0 where
    pub fits : a.consumed + a.dead_space ≤ partition_size
    pub ends : a.buffer + partition_size < 0x1_0000_0000_0000_0000

  -- A partition at `b` overlaps none of these.
  unfoldable pub IsClear : ℕ → List ExecutableAllocator → Type 0
  IsClear b [] = Unit
  IsClear b (a ∷ rest) = IsDisjoint b partition_size a.buffer partition_size × IsClear b rest

  unfoldable pub ArePartitions : List ExecutableAllocator → Type 0
  unfolding IsClear
  ArePartitions [] = Unit
  ArePartitions (a ∷ rest) = IsPartition a × IsClear a.buffer rest × ArePartitions rest

  -- The `n` bytes at `p` are among those that one of the partitions has given out.
  unfoldable pub IsOwned : ℕ → ℕ → List ExecutableAllocator → Type 0
  IsOwned p n [] = ⊥
  IsOwned p n (a ∷ rest) =
      ((a.buffer ≤ p) × (p + n ≤ a.buffer + (a.consumed + a.dead_space))) ⊎ IsOwned p n rest

  pub IsOwned-IsDisjoint :
      (ps : List ExecutableAllocator) (b p n : ℕ)
      → ArePartitions ps
      → IsClear b ps
      → IsOwned p n ps
      → IsDisjoint p n b partition_size
  unfolding ArePartitions IsClear IsOwned IsDisjoint
  IsOwned-IsDisjoint [] b p n parts c o = elim o [ ]
  IsOwned-IsDisjoint (a ∷ rest) b p n (part, h, parts) (clear, c) (inl (low, high)) =
      let fits = part.fits in elim clear [ inl e ↦ inr (omega arith) | inr e ↦ inl (omega arith) ]
  IsOwned-IsDisjoint (a ∷ rest) b p n (part, h, parts) (clear, c) (inr o) =
      IsOwned-IsDisjoint rest b p n parts c o

  -- What an allocation of `size` bytes grants with these partitions: the region it returns is given
  -- out, every region given out before still is, and is disjoint from it.
  unfoldable pub IsGranted :
      ℕ → List ExecutableAllocator → Option ℕ × List ExecutableAllocator → Type 0
  unfolding ArePartitions IsOwned
  IsGranted size ps (none, ps') = ⊥
  IsGranted size ps (some p, ps') =
      ArePartitions ps'
      × IsOwned p size ps'
      × ((q n : ℕ) → IsOwned q n ps → IsOwned q n ps' × IsDisjoint q n p size)

  -- A region inside of a partition, and one that is disjoint from the whole partition
  pub inside-IsDisjoint :
      (a : ExecutableAllocator) (p n q m : ℕ)
      → IsPartition a
      → a.buffer ≤ p
      → p + n ≤ a.buffer + (a.consumed + a.dead_space)
      → IsDisjoint q m a.buffer partition_size
      → IsDisjoint q m p n
  unfolding IsDisjoint
  inside-IsDisjoint a p n q m part low high (inl e) = inl (omega arith)
  inside-IsDisjoint a p n q m part low high (inr e) = let fits = part.fits in inr (omega arith)

  pub IsDisjoint-sym : (p n q m : ℕ) → IsDisjoint p n q m → IsDisjoint q m p n
  unfolding IsDisjoint
  IsDisjoint-sym p n q m (inl e) = inr e
  IsDisjoint-sym p n q m (inr e) = inl e
