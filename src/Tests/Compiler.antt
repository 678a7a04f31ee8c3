-- ===== src/Tests/Compiler.antt =====
-- The compiler and the runtime at concrete inputs.
use ji_tboy.Base.{
  ◌≤◌, ◌⊎◌, ◌++◌, refl, Holds, Outcome, none, some, List, ◌∷◌, true, ◌==◌, if◌then◌else◌, ◌≡◌, ℕ,
  ok, [], ◌+◌, arith,
}
use ji_tboy.Mips.Isa.{OpcodeR, InstructionR, r_type, i_type}
use ji_tboy.Emulation.InterpreterCore.{dispatch, execute}
use ji_tboy.Tests.Data.{start, finish, beq_2}
use ji_tboy.Emulation.State.{EmulatorState}
use ji_tboy.Emulation.CompiledBlock.{CompiledBlock}
use ji_tboy.Emulation.JumpResolver.{cleared}
use ji_tboy.Emulation.BlockMap.{Blocks}
use ji_tboy.Emulation.Runtime.{Runtime}
use ji_tboy.Mips.RegisterFile.{read, write}
use ji_tboy.Mips.Program.{at, valid_addr}
use ji_tboy.Mips.Classify.{is_branch_instr}
use ji_tboy.Emulation.State.{reg, set_reg}
use ji_tboy.Emulation.InterpreterCore.{dispatch_i, execute_current}
use ji_tboy.Emulation.Handlers.Immediate.{execute_addi}
use ji_tboy.Emulation.Handlers.Control.{execute_beq, branch, jump}
use ji_tboy.Emulation.HybridRuntime.{
  HybridRuntime, HybridRuntimeConfig, initial, round, try_get_block, consume_results,
  get_or_request, request, schedule, set_requests, execute_found, interpret,
}
use ji_tboy.Emulation.HybridRuntime.Requests.{pending}
use ji_tboy.Emulation.HybridRuntime.Threads.{starts, rounds, Reached-pending}
use ji_tboy.X86.Isa.{CondCode}
use ji_tboy.X86.Assembler.{size}
use ji_tboy.Emulation.JumpResolver.{link_both, link_partly}
use ji_tboy.Emulation.Compiler.Control.{compile_targets}
use ji_tboy.Emulation.Compiler.Room.{compile_targets-room}
use ji_tboy.Emulation.Compiler.Nesting.{no_slot, compile-two_levels}
use ji_tboy.Emulation.Compiler.{Compiler, Host, initial_state}
use ji_tboy.Emulation.Compiler.Dispatch.{compile, compile_instr}
use ji_tboy.Emulation.Compiler.Refinement.Refines.{Refines}
use ji_tboy.Emulation.Compiler.Refinement.RegisterInstr.{IsPlainR}
use ji_tboy.Emulation.Compiler.Refinement.ImmediateInstr.{IsPlain, compile_instr-Refines}

abbrev host : Host
host = record {
  reg_file = 0x1000;
  mem = 0x2000;
  function = λ label. 0x3000 + label;
  page_size = 4096;
  base_address = λ address. address;
  place = λ partitions. 0x10_0000;
}

-- `addu $v0, $a0, $a1`
abbrev add_args : InstructionR
add_args = record { op = OpcodeR.addu; rs = 4; rt = 5; rd = 2; sa = 0 }

compile_instr-Refines_example :
    Refines
      (compile_instr host (compile host 1) (r_type add_args) 0x40)
      (dispatch (execute 1) (r_type add_args))
unfolding IsPlain IsPlainR
compile_instr-Refines_example =
    compile_instr-Refines host (compile host 1) (execute 1) (r_type add_args) 0x40
      (record { rd_fits = omega arith; rs_fits = omega arith; rt_fits = omega arith })

abbrev runtime : Runtime
runtime = record {
  direct_linking = true;
  state = start;
  compiler = record {
    allocator = record { allocators = [] };
    linker = record { unresolved_locals = []; local_map = []; global_map = [] };
    assembler = cleared;
    state = initial_state;
  };
  blocks = λ addr. none;
  memory = λ addr. 0;
}

-- A processor on which every block jumps out of the program
abbrev leave : CompiledBlock → (ℕ → ℕ) → EmulatorState → Outcome (ℕ × EmulatorState)
leave block memory s = ok (8, s)

abbrev first_block : Blocks → List ℕ
first_block blocks = 0 ∷ []

abbrev block_at_64 : CompiledBlock
block_at_64 = record {
  code = 64;
  size = 16;
  host_instr_count = 4;
  source_instr_count = 2;
  config = record { o_level = 0; direct_linking = true };
  unresolved_jumps = (record { src_x86 = 70; dst_mips = 0; dst_x86 = none }) ∷ [];
  unresolved_cond_jumps = [];
  execution_count = 0;
}

abbrev looping : Blocks
looping addr = if addr == 0 then some block_at_64 else none

-- A block is compiled when it is first asked for.
abbrev eager : HybridRuntimeConfig
eager = record { compilation_threshold = 1; direct_linking = true; speculative_compilation = true }

abbrev asked : HybridRuntime
asked = record (initial eager start (λ addr. 0)) {
  state = finish;
  block_requests = λ addr. if addr == 0 then 1 else 0;
  interpreted_instructions = 1;
  jobs = 0 ∷ [];
}

first_round : round first_block leave 2 true (initial eager start (λ addr. 0)) ≡ ok (true, asked)
unfolding round try_get_block consume_results get_or_request request schedule set_requests
    execute_found interpret at is_branch_instr execute_current execute dispatch dispatch_i
    execute_beq branch jump valid_addr execute_addi set_reg reg read write
first_round = refl

Reached-pending_example :
    (pending 0 asked ≤ 1) × ((pending 0 asked ≡ 0) ⊎ (1 ≤ asked.block_requests 0))
Reached-pending_example =
    Reached-pending host first_block leave eager start (λ addr. 0) 1 asked
      (rounds 2 true true starts first_round) (omega arith) 0

compile-two_levels_example :
    compile host 5 (i_type beq_2) 0 runtime.compiler
    ≡ compile_instr host (compile_instr host no_slot) (i_type beq_2) 0 runtime.compiler
compile-two_levels_example = compile-two_levels host 3 (i_type beq_2) 0 runtime.compiler

-- A compiler with direct linking
abbrev linking : Compiler
linking = record runtime.compiler {
  state = record initial_state { config = record { o_level = 0; direct_linking = true } };
}

compile_targets-room_example :
    Holds
      (λ c'.
        (c'.state.unresolved_cond_jumps
          ≡ linking.state.unresolved_cond_jumps
            ++ ((size linking.assembler, CondCode.e, 8, 16) ∷ []))
        × (size linking.assembler + size (link_both CondCode.e 0x5000 0x6000 0x7000)
            ≤ size c'.assembler)
        × Holds
            (λ a. size linking.assembler + size a ≤ size c'.assembler)
            (link_partly CondCode.e 0x5000 0x6000 0x7000))
      (compile_targets CondCode.e 8 16 linking)
compile_targets-room_example =
    compile_targets-room CondCode.e CondCode.e 8 16 0x5000 0x6000 0x7000 linking refl
