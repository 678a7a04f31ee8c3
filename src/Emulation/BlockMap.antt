-- ===== src/Emulation/BlockMap.antt =====
-- The map from addresses to compiled blocks that src/emulation/runtime.cpp and hybrid_runtime.cpp
-- keep, and the loop that links every block of it. Host memory is passed along.
pub mod Linked
pub mod Relinked
use ji_tboy.Base.{ℕ, List, [], ◌∷◌, Option, none, some, ◌==◌, if◌then◌else◌, Outcome, ok, ◌>>=◌}
use ji_tboy.Emulation.CompiledBlock.{CompiledBlock}
use ji_tboy.Emulation.JumpResolver.{resolve_jumps}

-- `_blocks`
abbrev pub Blocks : Type 0
Blocks = ℕ → Option CompiledBlock

-- `_blocks[addr] = block`
unfoldable pub insert : ℕ → CompiledBlock → Blocks → Blocks
insert addr block blocks a = if a == addr then some block else blocks a

unfoldable pub relink_at : ℕ → Option CompiledBlock → Blocks → (ℕ → ℕ) → Outcome (Blocks × (ℕ → ℕ))
unfolding insert resolve_jumps
relink_at addr none blocks memory = ok (blocks, memory)
relink_at addr (some block) blocks memory = do
  (block', memory') ← resolve_jumps blocks block memory
  ok (insert addr block' blocks, memory')

-- `relink_blocks`, for the addresses in the order in which the map is walked
unfoldable pub relink : List ℕ → Blocks → (ℕ → ℕ) → Outcome (Blocks × (ℕ → ℕ))
unfolding relink_at
relink [] blocks memory = ok (blocks, memory)
relink (addr ∷ addrs) blocks memory = do
  (blocks', memory') ← relink_at addr (blocks addr) blocks memory
  relink addrs blocks' memory'
