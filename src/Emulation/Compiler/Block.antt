-- ===== src/Emulation/Compiler/Block.antt =====
-- The translation of a block: the public `compile` of src/emulation/compiler.cpp. Host memory, where
-- the code is placed, is passed along; a pointer is an address of 32 bits.
use ji_tboy.Base.{
  ℕ, zero, suc, ◌+◌, ◌-◌, if◌then◌else◌, not, ltb, map, Option, none, some, add32, Outcome, ok, err,
  ◌>>=◌, out_of_fuel, out_of_memory, [],
}
use ji_tboy.VectorBuffer.{copy}
use ji_tboy.X86.Isa.{CondCode, op_mov_i, ext_mov_i}
use ji_tboy.X86.Assembler.{size}
use ji_tboy.X86.Linker.{terminate_local}
use ji_tboy.Memory.DynamicExecutableAllocator.{DynamicExecutableAllocator, alloc}
use ji_tboy.Emulation.SourceBlock.{SourceBlock, at}
use ji_tboy.Emulation.SourceBlock.{size as source_size}
use ji_tboy.Emulation.CompiledBlock.{CompiledBlock, UnconditionalJump, ConditionalJump}
use ji_tboy.Emulation.CompilerConfig.{CompilerConfig}
use ji_tboy.Emulation.Compiler.{Compiler, Host, Step, reset, addr_reg}
use ji_tboy.Emulation.Compiler.Registers.{emit_imm}
use ji_tboy.Emulation.Compiler.Control.{compile_jump}
use ji_tboy.Emulation.Compiler.Dispatch.{compile}

-- Calls of `compile` that nest: an instruction and its delay slot
abbrev pub depth : ℕ
depth = 2

module _ (host : Host) where
  -- The loop over the block, with a fuel of its rounds: where it stops and the compiler then
  unfoldable pub compile_loop : ℕ → SourceBlock → ℕ → Compiler → Outcome (ℕ × Compiler)
  compile_loop zero block pc c = err out_of_fuel
  compile_loop (suc fuel) block pc c =
      let rest = compile_loop fuel block (add32 pc 4) in
      if not (ltb pc block.end_addr)
      then ok (pc, c)
      else (at block pc >>= λ instr. compile host depth instr pc c >>= λ c'.
          if c'.state.terminated then ok (add32 pc 4, c') else rest c')

  -- The code of a block in the assembler: `reset` to the last `compile_jump`
  unfoldable pub compile_code : SourceBlock → CompilerConfig → Step
  unfolding reset emit_imm compile_loop compile_jump
  compile_code block config c = do
    let c₁ = reset c
    c₂ ←
        emit_imm op_mov_i ext_mov_i addr_reg host.reg_file
          (record c₁ { state = record c₁.state { source = some block; config = config } })
    (pc, c₃) ← compile_loop (block.end_addr - block.start_addr + 1) block block.start_addr c₂
    if c₃.state.terminated then ok c₃ else compile_jump (compile host depth) pc pc c₃

  -- `emplace_back(src, target)` of the block's open jumps
  abbrev pub open_jump : ℕ → ℕ × ℕ → UnconditionalJump
  open_jump code (offset, target) = record {
    src_x86 = code + offset;
    dst_mips = target;
    dst_x86 = none;
  }

  abbrev pub open_cond_jump : ℕ → ℕ × CondCode × ℕ × ℕ → ConditionalJump
  open_cond_jump code (offset, cond, target_true, target_false) = record {
    src_x86 = code + offset;
    cond = cond;
    dst_true_mips = target_true;
    dst_false_mips = target_false;
    dst_true_x86 = none;
    dst_false_x86 = none;
  }

  -- The block behind the code: its place in host memory, the linker's patches and the open jumps
  unfoldable pub place_code :
      SourceBlock
      → CompilerConfig
      → Compiler
      → (ℕ → ℕ)
      → Option ℕ × DynamicExecutableAllocator
      → Outcome (Compiler × CompiledBlock × (ℕ → ℕ))
  unfolding terminate_local copy size source_size
  place_code block config c memory (none, pool) = err out_of_memory
  place_code block config c memory (some buffer, pool) = do
    (l, memory') ← terminate_local buffer c.linker (copy c.assembler.buffer buffer memory)
    let linked = c.state.config.direct_linking
    ok (
      record c { allocator = pool; linker = l },
      record {
        code = buffer;
        size = size c.assembler;
        host_instr_count = c.assembler.instr_count;
        source_instr_count = source_size block;
        config = config;
        unresolved_jumps = if linked then map (open_jump buffer) c.state.unresolved_jumps else [];
        unresolved_cond_jumps =
            if linked then map (open_cond_jump buffer) c.state.unresolved_cond_jumps else [];
        execution_count = 0;
      },
      memory',
    )

  -- `compile(SourceBlock, config)`
  unfoldable pub compile_block :
      SourceBlock
      → CompilerConfig
      → Compiler
      → (ℕ → ℕ)
      → Outcome (Compiler × CompiledBlock × (ℕ → ℕ))
  unfolding compile_code place_code alloc size
  compile_block block config c memory = do
    c' ← compile_code block config c
    place_code block config c' memory
        (alloc 4096 host.page_size host.base_address host.place (size c'.assembler) c'.allocator)
