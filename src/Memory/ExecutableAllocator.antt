-- ===== src/Memory/ExecutableAllocator.antt =====
-- One partition of executable memory: src/memory/executable_allocator.hpp. Pointers and sizes are
-- 64 bits wide. VirtualProtect and the allocation of the buffer are the operating system's.
use ji_tboy.Base.{ℕ, ◌+◌, ◌-◌, ◌%◌, Option, none, some, if◌then◌else◌, ltb}

-- a + b and a - b at `size_t`
abbrev pub add64 : ℕ → ℕ → ℕ
add64 a b = (a + b) % 0x1_0000_0000_0000_0000

abbrev pub sub64 : ℕ → ℕ → ℕ
sub64 a b = (a + 0x1_0000_0000_0000_0000 - b) % 0x1_0000_0000_0000_0000

pub record ExecutableAllocator : Type 0 where
  pub buffer : ℕ
  pub consumed : ℕ
  pub dead_space : ℕ

-- `get_dead_space`, where VirtualQuery does not fail: `base_address` is the `BaseAddress` it gives. The
-- cache holds earlier results only.
unfoldable pub get_dead_space : ℕ → (ℕ → ℕ) → ℕ → ℕ
get_dead_space page_size base_address at_address =
    sub64 (add64 (base_address at_address) page_size) at_address % page_size

-- The constructor, for a buffer at this address
unfoldable pub new_allocator : ℕ → (ℕ → ℕ) → ℕ → ExecutableAllocator
unfolding get_dead_space
new_allocator page_size base_address at_address = record {
  buffer = at_address;
  consumed = 0;
  dead_space = get_dead_space page_size base_address at_address;
}

unfoldable pub get_used : ExecutableAllocator → ℕ
get_used a = add64 a.consumed a.dead_space

module _ (buffer_size : ℕ) where
  unfoldable pub get_total : ExecutableAllocator → ℕ
  get_total a = buffer_size

  unfoldable pub get_free : ExecutableAllocator → ℕ
  unfolding get_used get_total
  get_free a = sub64 (get_total a) (get_used a)

  -- `alloc`: the pointer, or `none` where the buffer is full and the code throws. The space counts
  -- as consumed either way.
  unfoldable pub alloc : ℕ → ExecutableAllocator → Option ℕ × ExecutableAllocator
  unfolding get_used
  alloc size a =
      let a' = record a { consumed = add64 a.consumed size } in
      (if ltb buffer_size (get_used a') then none else some (add64 a.buffer (get_used a)), a')
