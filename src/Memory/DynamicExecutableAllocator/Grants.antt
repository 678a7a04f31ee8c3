-- ===== src/Memory/DynamicExecutableAllocator/Grants.antt =====
-- What src/memory/dynamic_executable_allocator.hpp hands out: each region apart from the others.
use ji_tboy.Base.{
  ℕ, ◌+◌, ◌≤◌, ◌<◌, ◌≡◌, inl, inr, refl, sym, ap₂, Bool, true, false, Option, none, some, List, [],
  ◌∷◌, if◌then◌else◌, ltb, leb, arith,
}
use mathlib.Core.Path.{subst}
use ji_tboy.Memory.ExecutableAllocator.{
  ExecutableAllocator, new_allocator, get_dead_space, get_used, get_total, get_free, add64,
}
use ji_tboy.Memory.ExecutableAllocator.{alloc as alloc_from}
use ji_tboy.Memory.DynamicExecutableAllocator.{
  DynamicExecutableAllocator, alloc, alloc_first, make_allocator,
}
use ji_tboy.Memory.DynamicExecutableAllocator.Regions.{
  IsDisjoint, IsPartition, IsClear, ArePartitions, IsGranted, IsOwned-IsDisjoint, inside-IsDisjoint,
  IsDisjoint-sym,
}

if_lem {ℓ ℓ'} :
    {A : Type ℓ} (Q : A → Type ℓ') (c : Bool) {x y : A}
    → (c ≡ true → Q x)
    → (c ≡ false → Q y)
    → Q (if c then x else y)
if_lem Q true f g = f refl
if_lem Q false f g = g refl

pointer_lem :
    (limit b c d size : ℕ)
    → b + limit < 0x1_0000_0000_0000_0000
    → c + d + size ≤ limit
    → (if ltb limit (add64 (add64 c size) d) then none else some (add64 b (add64 c d)))
      ≡ some (b + (c + d))
pointer_lem limit b c d size ends h = ground arith

module _ (partition_size : ℕ) where
  -- A partition with enough space serves the allocation behind what it has given out.
  alloc_from-ok :
      (size : ℕ) (a : ExecutableAllocator)
      → IsPartition partition_size a
      → a.consumed + a.dead_space + size ≤ partition_size
      → alloc_from partition_size size a
        ≡ (some (a.buffer + (a.consumed + a.dead_space)), record a { consumed = a.consumed + size })
  unfolding alloc_from get_used
  alloc_from-ok size a part h =
      let fits = part.fits in
      let ends = part.ends in
      ap₂ (λ (ptr : Option ℕ) (n : ℕ). (ptr, record a { consumed = n }))
        (pointer_lem partition_size a.buffer a.consumed a.dead_space size ends h) (omega arith)

  get_free_lem :
      (a : ExecutableAllocator)
      → IsPartition partition_size a
      → partition_size < 0x1_0000_0000_0000_0000
      → get_free partition_size a + (a.consumed + a.dead_space) ≡ partition_size
  unfolding get_free get_used get_total
  get_free_lem a part h = let fits = part.fits in omega arith

  has_space :
      (size : ℕ) (a : ExecutableAllocator)
      → IsPartition partition_size a
      → partition_size < 0x1_0000_0000_0000_0000
      → leb size (get_free partition_size a) ≡ true
      → a.consumed + a.dead_space + size ≤ partition_size
  has_space size a part small e = let free = get_free_lem a part small in ground arith

  alloc_first-IsClear :
      (size : ℕ) (made : ExecutableAllocator) (ps : List ExecutableAllocator) (b : ℕ)
      → IsClear partition_size b ps
      → IsDisjoint b partition_size made.buffer partition_size
      → IsClear partition_size b (alloc_first partition_size size made ps).1
  unfolding IsClear alloc_first alloc_from
  alloc_first-IsClear size made [] b c h = (h, tt)
  alloc_first-IsClear size made (a ∷ rest) b (c, cs) h =
      if_lem {A = Option ℕ × List ExecutableAllocator} (λ r. IsClear partition_size b r.1)
        (leb size (get_free partition_size a)) (λ _. (c, cs))
        (λ _. (c, alloc_first-IsClear size made rest b cs h))

  IsPartition-more :
      (size : ℕ) (a : ExecutableAllocator)
      → IsPartition partition_size a
      → a.consumed + a.dead_space + size ≤ partition_size
      → IsPartition partition_size (record a { consumed = a.consumed + size })
  IsPartition-more size a part h = record { fits = omega arith; ends = part.ends }

  IsGranted-new :
      (size : ℕ) (a : ExecutableAllocator) (rest : List ExecutableAllocator)
      → IsPartition partition_size a
      → a.consumed + a.dead_space + size ≤ partition_size
      → IsClear partition_size a.buffer rest
      → ArePartitions partition_size rest
      → IsGranted partition_size size (a ∷ rest) (
        some (a.buffer + (a.consumed + a.dead_space)),
        record a { consumed = a.consumed + size } ∷ rest,
      )
  unfolding IsGranted IsDisjoint
  IsGranted-new size a rest part h clear parts =
      let part' = IsPartition-more size a part h in
      (
        (part', clear, parts),
        inl (omega arith, omega arith),
        λ q n o. elim o [
          | inl (low, high) ↦ (inl (low, omega arith), inl high)
          | inr o' ↦ (
            inr o',
            inside-IsDisjoint partition_size _ _ size q n part' (omega arith) (omega arith)
                (IsOwned-IsDisjoint partition_size rest a.buffer q n parts clear o'),
          )
        ],
      )

  IsGranted-fewer :
      (size : ℕ) (a : ExecutableAllocator) (r : Option ℕ × List ExecutableAllocator)
      → IsGranted partition_size size (a ∷ []) r
      → IsGranted partition_size size [] r
  unfolding IsGranted
  IsGranted-fewer size a (none, ps) g = g
  IsGranted-fewer size a (some p, ps) (parts, o, _) = (parts, o, λ q n e. elim e [ ])

  IsGranted-later :
      (size : ℕ) (a : ExecutableAllocator) (rest : List ExecutableAllocator)
      (r : Option ℕ × List ExecutableAllocator)
      → IsPartition partition_size a
      → IsClear partition_size a.buffer r.1
      → IsGranted partition_size size rest r
      → IsGranted partition_size size (a ∷ rest) (r.0, a ∷ r.1)
  unfolding IsGranted
  IsGranted-later size a rest (none, ps) part c g = g
  IsGranted-later size a rest (some p, ps) part c (parts, owned, kept) = (
    (part, c, parts),
    inr owned,
    λ q n o. elim o [
      | inl (low, high) ↦ (
        inl (low, high),
        IsDisjoint-sym partition_size p size q n (
            inside-IsDisjoint partition_size a q n p size part low high
              (IsOwned-IsDisjoint partition_size ps a.buffer p size parts c owned)),
      )
      | inr o' ↦ let (o'', apart) = kept q n o' in (inr o'', apart)
    ],
  )

  alloc_first-IsGranted :
      (size : ℕ) (made : ExecutableAllocator) (ps : List ExecutableAllocator)
      → IsPartition partition_size made
      → made.consumed + made.dead_space + size ≤ partition_size
      → partition_size < 0x1_0000_0000_0000_0000
      → ArePartitions partition_size ps
      → IsClear partition_size made.buffer ps
      → IsGranted partition_size size ps (alloc_first partition_size size made ps)
  unfolding alloc_first IsClear ArePartitions
  alloc_first-IsGranted size made [] part h small parts c = IsGranted-fewer size made _ (
      subst (λ r. IsGranted partition_size size (made ∷ []) (r.0, r.1 ∷ []))
        (sym (alloc_from-ok size made part h)) (IsGranted-new size made [] part h tt tt))
  alloc_first-IsGranted size made (a ∷ rest) part h small (part_a, clear, parts) (c, cs) =
      if_lem {A = Option ℕ × List ExecutableAllocator} (IsGranted partition_size size (a ∷ rest))
        (leb size (get_free partition_size a))
        (λ e.
          let fit = has_space size a part_a small e in
          subst (λ r. IsGranted partition_size size (a ∷ rest) (r.0, r.1 ∷ rest))
            (sym (alloc_from-ok size a part_a fit))
            (IsGranted-new size a rest part_a fit clear parts))
        (λ _.
          IsGranted-later size a rest _ part_a
            (alloc_first-IsClear size made rest a.buffer clear
              (IsDisjoint-sym partition_size _ _ _ _ c))
            (alloc_first-IsGranted size made rest part h small parts cs))

-- Where the partitions are apart and have not given out more than they have, the next partition would
-- overlap none of them, and `size` bytes fit behind its dead space, `alloc` returns a region, does not
-- throw, and keeps the partitions so: the region is given out by one of them, and each region that
-- was given out before still is and is disjoint from it.
pub alloc-IsGranted :
    (partition_size page_size : ℕ) (base_address : ℕ → ℕ) (place : List ExecutableAllocator → ℕ)
    (size : ℕ) (pool : DynamicExecutableAllocator)
    → ArePartitions partition_size pool.allocators
    → IsClear partition_size (place pool.allocators) pool.allocators
    → place pool.allocators + partition_size < 0x1_0000_0000_0000_0000
    → get_dead_space page_size base_address (place pool.allocators) + size ≤ partition_size
    → IsGranted partition_size size pool.allocators (
      (alloc partition_size page_size base_address place size pool).0,
      (alloc partition_size page_size base_address place size pool).1.allocators,
    )
unfolding alloc make_allocator new_allocator
alloc-IsGranted partition_size page_size base_address place size pool parts clear ends fits =
    if_lem {A = Option ℕ × DynamicExecutableAllocator}
      (λ r. IsGranted partition_size size pool.allocators (r.0, r.1.allocators))
      (ltb partition_size size) (λ e. absurd (ground arith))
      (λ _.
        alloc_first-IsGranted partition_size size _ pool.allocators
          (record { fits = omega arith; ends = ends }) (omega arith) (omega arith) parts clear)
