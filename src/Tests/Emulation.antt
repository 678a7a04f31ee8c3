-- ===== src/Tests/Emulation.antt =====
-- The emulators' parts at concrete inputs.
use ji_tboy.Base.{
  ◌^◌, ◌+◌, ◌*◌, ◌<◌, ◌≡◌, ◌≢◌, refl, arith, ok, err, out_of_fuel, Holds, bad_addr, if◌then◌else◌,
  leb, ltb, ◌&&◌, Option, none, some, [], true, ℕ,
}
use ji_tboy.X86.Isa.{CondCode}
use ji_tboy.Emulation.CompiledBlock.{CompiledBlock, UnconditionalJump, ConditionalJump}
use ji_tboy.Emulation.JumpResolver.{resolve_jump, resolve_cond_jump}
use ji_tboy.Emulation.JumpResolver.Links.{
  JumpsTo, BranchesTo, resolve_jump-JumpsTo, resolve_cond_jump-BranchesTo,
}
use ji_tboy.Mips.Isa.{OpcodeR, InstructionR, r_type, i_type}
use ji_tboy.Mips.Program.{at, valid_addr}
use ji_tboy.Mips.Classify.{is_branch_instr, writes_reg, is_nop}
use ji_tboy.Emulation.State.{EmulatorState, reg, valid_pc}
use ji_tboy.Emulation.Guest.{IsGuest}
use ji_tboy.Mips.RegisterFile.{read, write, hi, lo, initial}
use ji_tboy.Mips.RegisterFile.Laws.{initial-IsRegisters, write-IsRegisters}
use ji_tboy.Emulation.Handlers.HiLo.{execute_mult, execute_multu, execute_divu}
use ji_tboy.Emulation.Handlers.HiLo.Results.{
  execute_multu-product, execute_mult-signed_product, execute_divu-quotient, signed_product,
}
use ji_tboy.Emulation.State.{set_reg}
use ji_tboy.Emulation.Handlers.Immediate.{execute_addi}
use ji_tboy.Emulation.Handlers.Control.{execute_beq, branch, jump}
use ji_tboy.Emulation.InterpreterCore.{dispatch_i, dispatch, execute, execute_current}
use ji_tboy.Emulation.InterpreterCore.Validity.{execute-IsGuest}
use ji_tboy.Emulation.InterpreterCore.Effect.{is_store}
use ji_tboy.Emulation.InterpreterCore.Frame.{dispatch-keeps_reg, is_nop-dispatch}
use ji_tboy.Emulation.InterpreterCore.NextPc.{next_pc}
use ji_tboy.Emulation.InterpreterCore.Flow.{execute_current-next_pc}
use ji_tboy.Emulation.InterpreterCore.Termination.{execute-finishes, execute-slot_jump}
use ji_tboy.Emulation.Interpreter.{Interpreter, round, run}
use ji_tboy.Emulation.Interpreter.Run.{done, step, Ran, run-Ran, Steps-run, run-IsGuest}
use ji_tboy.Emulation.SourceBlock.{SourceBlock}
use ji_tboy.Emulation.SourceBlock.{at as block_at, size as block_size}
use ji_tboy.Emulation.BlockPartitioner.{partition_block}
use ji_tboy.Emulation.BlockPartitioner.Blocks.{IsBlock, partition_block-IsBlock}
use ji_tboy.Emulation.BlockPartitioner.Walk.{IsBlock-at}
use ji_tboy.Tests.Data.{
  beq_2, addi_5, addu_8, j_4, branching, start, interpreter, branching-IsProgram, start-IsGuest,
  finish, finished, slot_jumping, start-PlainSlot, branching-IsBelow, whole, whole-IsBlock,
}

execute-IsGuest_example : Holds (IsGuest branching) (execute 2 0 start)
execute-IsGuest_example = execute-IsGuest branching branching-IsProgram 2 0 start start-IsGuest

execute_current-next_pc_example :
    Holds (λ s'. s'.pc ≡ next_pc (i_type beq_2) start) (execute_current 2 start)
unfolding at
execute_current-next_pc_example =
    execute_current-next_pc branching 1 (i_type beq_2) start start-IsGuest refl

dispatch-keeps_reg_example :
    Holds (λ s'. reg s' 9 ≡ reg start 9) (dispatch (execute 1) (i_type addi_5) start)
unfolding is_branch_instr writes_reg
dispatch-keeps_reg_example =
    dispatch-keeps_reg (execute 1) (i_type addi_5) start refl 9 (omega arith) refl

is_nop-dispatch_example :
    Holds (λ s'. s' ≡ start) (dispatch (execute 1) (r_type (record addu_8 { rd = 0 })) start)
unfolding is_branch_instr is_store is_nop writes_reg
is_nop-dispatch_example =
    is_nop-dispatch (execute 1) (r_type (record addu_8 { rd = 0 })) start refl refl refl

execute-finishes_example : execute 2 0 start ≢ err out_of_fuel
execute-finishes_example = execute-finishes 0 0 start start-PlainSlot

execute-slot_jump_example : execute 1000 4 slot_jumping ≡ err out_of_fuel
execute-slot_jump_example = execute-slot_jump 1000 j_4 slot_jumping refl refl

-- One round of the interpreter, computed.
start-round : execute_current 2 start ≡ ok finish
unfolding execute_current execute at dispatch dispatch_i execute_beq branch jump valid_addr
    execute_addi set_reg reg read write
start-round = refl

start-run : run 2 2 interpreter ≡ ok finished
unfolding run round execute_current execute at dispatch dispatch_i execute_beq branch jump
    valid_addr execute_addi set_reg reg read write valid_pc
start-run = refl

run-Ran_example : Ran 2 interpreter finished
run-Ran_example = run-Ran 2 2 interpreter finished start-run

Steps-run_example : (it' : Interpreter) × (run 2 2 interpreter ≡ ok it') × (it'.state ≡ finish)
unfolding valid_pc valid_addr
Steps-run_example =
    Steps-run 2 1 interpreter finish (step start finish finish refl start-round (done finish)) refl

run-IsGuest_example : Holds (λ it'. IsGuest branching it'.state) (run 2 2 interpreter)
run-IsGuest_example = run-IsGuest branching branching-IsProgram 2 2 interpreter start-IsGuest

partition_block-IsBlock_example :
    (b : SourceBlock) × (partition_block 3 branching 0 ≡ ok b) × IsBlock branching 0 b
unfolding valid_addr
partition_block-IsBlock_example =
    partition_block-IsBlock branching 8 branching-IsBelow 2 0 (omega arith) refl

IsBlock-at_example :
    block_at whole 4
    ≡ (if leb 0 4 && ltb 4 (0 + 4 * block_size whole) then at branching 4 else err bad_addr)
IsBlock-at_example = IsBlock-at branching 8 0 whole branching-IsBelow whole-IsBlock 4

-- `$t0` holds 5 in `finish`: its square, and the division of 0 by it.
abbrev mult_8 : InstructionR
mult_8 = record addu_8 { op = OpcodeR.mult }

abbrev divu_8 : InstructionR
divu_8 = record { op = OpcodeR.divu; rd = 0; rs = 0; rt = 8; sa = 0 }

finish-IsGuest : IsGuest branching finish
unfolding write
finish-IsGuest = record {
  registers = write-IsRegisters initial initial-IsRegisters 8 5 (omega arith);
  words = start-IsGuest.words;
  pc_fits = omega arith;
  same_program = refl;
}

execute_multu-product_example :
    hi (execute_multu mult_8 finish).regs * 2 ^ 32 + lo (execute_multu mult_8 finish).regs
    ≡ reg finish 8 * reg finish 8
execute_multu-product_example = execute_multu-product branching mult_8 finish finish-IsGuest

execute_mult-signed_product_example :
    hi (execute_mult mult_8 finish).regs * 2 ^ 32 + lo (execute_mult mult_8 finish).regs
    ≡ signed_product (reg finish 8) (reg finish 8)
execute_mult-signed_product_example =
    execute_mult-signed_product branching mult_8 finish finish-IsGuest

finish-reg : reg finish 8 ≢ 0
unfolding reg read
finish-reg = omega arith

execute_divu-quotient_example :
    (s' : EmulatorState) × (execute_divu divu_8 finish ≡ ok s')
    × (lo s'.regs * reg finish 8 + hi s'.regs ≡ reg finish 0)
    × (hi s'.regs < reg finish 8)
execute_divu-quotient_example =
    execute_divu-quotient branching divu_8 finish finish-IsGuest (omega arith) (omega arith)
      finish-reg

-- The runtime has a block for every address, with its code at 0x4000 behind the address.
abbrev compiled : ℕ → Option CompiledBlock
compiled addr = some (record {
  code = 0x4000 + addr;
  size = 16;
  host_instr_count = 4;
  source_instr_count = 2;
  config = record { o_level = 0; direct_linking = true };
  unresolved_jumps = [];
  unresolved_cond_jumps = [];
  execution_count = 0;
})

abbrev open_jump : UnconditionalJump
open_jump = record { src_x86 = 0x400A; dst_mips = 64; dst_x86 = none }

abbrev open_cond_jump : ConditionalJump
open_cond_jump = record {
  src_x86 = 0x400A;
  cond = CondCode.ne;
  dst_true_mips = 0;
  dst_false_mips = 0x1000;
  dst_true_x86 = none;
  dst_false_x86 = none;
}

resolve_jump-JumpsTo_example :
    ((resolve_jump compiled open_jump (λ a. 0)).0 ≡ true)
    × JumpsTo (resolve_jump compiled open_jump (λ a. 0)).2 0x400A 0x4040
resolve_jump-JumpsTo_example =
    resolve_jump-JumpsTo compiled open_jump (λ a. 0) _ refl (omega arith) (omega arith)

resolve_cond_jump-BranchesTo_example :
    (j' : ConditionalJump) × (memory' : ℕ → ℕ) × (resolve_cond_jump compiled open_cond_jump (λ a. 0)
      ≡ ok (true, j', memory'))
    × BranchesTo memory' 0x400A CondCode.ne 0x4000 0x5000
resolve_cond_jump-BranchesTo_example =
    resolve_cond_jump-BranchesTo compiled open_cond_jump (λ a. 0) _ _ refl refl (omega arith)
      (omega arith) (omega arith) (omega arith)
