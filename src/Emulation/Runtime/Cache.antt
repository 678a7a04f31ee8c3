-- ===== src/Emulation/Runtime/Cache.antt =====
-- What src/emulation/runtime.cpp keeps of its map of blocks.
use ji_tboy.Base.{ℕ, ◌≡◌, List, some, Outcome, ok, ◌>>=◌}
use ji_tboy.Memory.DynamicExecutableAllocator.{DynamicExecutableAllocator}
use ji_tboy.Mips.Program.{Program}
use ji_tboy.Emulation.State.{EmulatorState}
use ji_tboy.Emulation.SourceBlock.{SourceBlock}
use ji_tboy.Emulation.CompiledBlock.{CompiledBlock}
use ji_tboy.Emulation.CompilerConfig.{CompilerConfig}
use ji_tboy.Emulation.Compiler.{Compiler, Host}
use ji_tboy.Emulation.Compiler.Block.{compile_block}
use ji_tboy.Emulation.BlockMap.{Blocks, insert}
use ji_tboy.Emulation.BlockMap.Linked.{AreLinked, Keeps}
use ji_tboy.Emulation.Runtime.{Runtime, entry, link_all}

module _ (host : Host) (walk : Blocks → List ℕ)
    (call : CompiledBlock → (ℕ → ℕ) → EmulatorState → Outcome (ℕ × EmulatorState)) where
  -- The map of `r'` still has the blocks of `r`, where they were, and only right links.
  pub record Grows (r r' : Runtime) : Type 0 where
    pub keeps : Keeps r.blocks r'.blocks
    pub linked : AreLinked r'.blocks

  -- What `get_or_compile_block` leaves: the block that it returns is in the map.
  pub record Serves (addr : ℕ) (r : Runtime) (block : CompiledBlock) (r' : Runtime) : Type 0 where
    pub found : r'.blocks addr ≡ some block
    pub grows : Grows r r'
    pub same_state : r'.state ≡ r.state

  abbrev config_of : Runtime → CompilerConfig
  config_of r = record { o_level = 0; direct_linking = r.direct_linking }

  -- `get_or_compile_block` behind the partitioner
  abbrev serve : SourceBlock → Runtime → Outcome (CompiledBlock × Runtime)
  serve b r = compile_block host b (config_of r) r.compiler r.memory >>= λ (c, block, memory).
      link_all host walk call
        (record r { compiler = c; blocks = insert b.start_addr block r.blocks; memory = memory })
      >>= λ r'. entry (r'.blocks b.start_addr) >>= λ ret. ok (ret, r')
