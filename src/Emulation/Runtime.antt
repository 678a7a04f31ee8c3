-- ===== src/Emulation/Runtime.antt =====
-- The emulator that compiles every block before it executes it: src/emulation/runtime.hpp and
-- runtime.cpp, without the debug stream. What the processor does with a block's code is a parameter,
-- `call`, and so is the order in which the map of blocks is walked.
pub mod Cache
use ji_tboy.Base.{
  ℕ, zero, suc, ◌+◌, ◌%◌, ◌^◌, Bool, if◌then◌else◌, List, Option, none, some, Outcome, ok, err,
  ◌>>=◌, bad_addr, out_of_fuel,
}
use ji_tboy.Mips.Program.{Program}
use ji_tboy.Emulation.State.{EmulatorState, valid_pc}
use ji_tboy.Emulation.BlockPartitioner.{partition_block}
use ji_tboy.Emulation.CompiledBlock.{CompiledBlock}
use ji_tboy.Emulation.Compiler.{Compiler, Host}
use ji_tboy.Emulation.Compiler.Block.{compile_block}
use ji_tboy.Emulation.BlockMap.{Blocks, insert, relink}

-- `memory` is the host memory that holds the code.
pub record Runtime : Type 0 where
  pub direct_linking : Bool
  pub state : EmulatorState
  pub compiler : Compiler
  pub blocks : Blocks
  pub memory : ℕ → ℕ

unfoldable pub load_source : Program → Runtime → Runtime
load_source program r = record r { state = record r.state { program = program } }

-- What a reference to an entry of the map refers to
abbrev pub entry : Option CompiledBlock → Outcome CompiledBlock
entry none = err bad_addr
entry (some block) = ok block

module _ (host : Host) (walk : Blocks → List ℕ)
    (call : CompiledBlock → (ℕ → ℕ) → EmulatorState → Outcome (ℕ × EmulatorState)) where
  -- The links of all blocks, under direct linking
  unfoldable pub link_all : Runtime → Outcome Runtime
  unfolding relink
  link_all r =
      if r.direct_linking
      then (do
        (blocks, memory) ← relink (walk r.blocks) r.blocks r.memory
        ok (record r { blocks = blocks; memory = memory }))
      else ok r

  -- `get_or_compile_block` for what it finds; `fuel` is that of the partitioner.
  unfoldable pub get_found :
      ℕ → ℕ → Option CompiledBlock → Runtime → Outcome (CompiledBlock × Runtime)
  unfolding partition_block compile_block insert link_all
  get_found fuel addr (some block) r = ok (block, r)
  get_found fuel addr none r = do
    input ← partition_block fuel r.state.program addr
    (c, block, memory) ←
        compile_block host input (record { o_level = 0; direct_linking = r.direct_linking })
          r.compiler r.memory
    r' ← link_all (record r {
      compiler = c;
      blocks = insert input.start_addr block r.blocks;
      memory = memory;
    })
    ret ← entry (r'.blocks input.start_addr)
    ok (ret, r')

  unfoldable pub get_or_compile_block : ℕ → ℕ → Runtime → Outcome (CompiledBlock × Runtime)
  unfolding get_found
  get_or_compile_block fuel addr r = get_found fuel addr (r.blocks addr) r

  -- `_state.pc = block()`: `operator()` counts its calls in the block.
  unfoldable pub execute_block : CompiledBlock → Runtime → Outcome Runtime
  unfolding insert
  execute_block block r = do
    (pc, s) ← call block r.memory r.state
    ok (record r {
      blocks =
          insert r.state.pc
            (record block { execution_count = (block.execution_count + 1) % 2 ^ 64 }) r.blocks;
      state = record s { pc = pc };
    })

  -- The loop of `execute(addr)`, with a fuel of its rounds
  unfoldable pub run : ℕ → ℕ → Runtime → Outcome Runtime
  unfolding get_or_compile_block execute_block
  run zero depth r = err out_of_fuel
  run (suc fuel) depth r =
      let rest = get_or_compile_block depth r.state.pc r >>= λ (block, r').
      execute_block block r' >>= run fuel depth in
      if valid_pc r.state then rest else ok r

  -- `execute(addr)`
  unfoldable pub execute : ℕ → ℕ → ℕ → Runtime → Outcome Runtime
  unfolding run
  execute fuel depth addr r = run fuel depth (record r { state = record r.state { pc = addr } })

  -- `execute(program)`
  unfoldable pub execute_program : ℕ → ℕ → Program → Runtime → Outcome Runtime
  unfolding load_source execute
  execute_program fuel depth program r =
      let r' = load_source program r in execute fuel depth r'.state.program.entry_point r'
