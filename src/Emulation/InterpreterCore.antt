-- ===== src/Emulation/InterpreterCore.antt =====
-- One step of the interpreter: the dispatch of src/emulation/interpreter_core.cpp.
-- `execute` and `jump` call each other, once for a branch and its delay slot; `fuel` counts the
-- calls that may nest.
pub mod Validity
pub mod Effect
pub mod Frame
pub mod NextPc
pub mod Flow
pub mod DelaySlot
pub mod Termination
use ji_tboy.Base.{ℕ, zero, suc, add32, Outcome, ok, err, ◌>>=◌, invalid_instr, out_of_fuel}
use ji_tboy.Mips.Isa.{
  OpcodeR, OpcodeI, OpcodeJ, Instruction, r_type, i_type, j_type, InstructionR, InstructionI,
  InstructionJ,
}
use ji_tboy.Mips.Program.{at}
use ji_tboy.Emulation.State.{EmulatorState}
use ji_tboy.Emulation.Handlers.Alu.{
  execute_add, execute_addu, execute_sub, execute_subu, execute_and, execute_or, execute_nor,
  execute_xor, execute_slt, execute_sltu,
}
use ji_tboy.Emulation.Handlers.HiLo.{
  execute_mult, execute_multu, execute_div, execute_divu, execute_mfhi, execute_mflo, execute_mthi,
  execute_mtlo,
}
use ji_tboy.Emulation.Handlers.Shift.{
  execute_sll, execute_sra, execute_srl, execute_sllv, execute_srav, execute_srlv,
}
use ji_tboy.Emulation.Handlers.Immediate.{
  execute_addi, execute_addiu, execute_andi, execute_ori, execute_xori, execute_slti, execute_sltiu,
  execute_lui,
}
use ji_tboy.Emulation.Handlers.Memory.{
  execute_lw, execute_lb, execute_lbu, execute_lh, execute_lhu, execute_sw, execute_sb, execute_sh,
  execute_lwl, execute_lwr,
}
use ji_tboy.Emulation.Handlers.Control.{
  execute_jr, execute_jalr, execute_beq, execute_bgtz, execute_blez, execute_bne, execute_bgez,
  execute_bgezal, execute_bltz, execute_bltzal, execute_j, execute_jal,
}

module _ (slot : ℕ → EmulatorState → Outcome EmulatorState) where
  unfoldable pub dispatch_r : OpcodeR → InstructionR → EmulatorState → Outcome EmulatorState
  dispatch_r OpcodeR.add instr s = ok (execute_add instr s)
  dispatch_r OpcodeR.addu instr s = ok (execute_addu instr s)
  dispatch_r OpcodeR.sub instr s = ok (execute_sub instr s)
  dispatch_r OpcodeR.subu instr s = ok (execute_subu instr s)
  dispatch_r OpcodeR.and instr s = ok (execute_and instr s)
  dispatch_r OpcodeR.or instr s = ok (execute_or instr s)
  dispatch_r OpcodeR.nor instr s = ok (execute_nor instr s)
  dispatch_r OpcodeR.xor instr s = ok (execute_xor instr s)
  dispatch_r OpcodeR.jr instr s = execute_jr slot instr s
  dispatch_r OpcodeR.jalr instr s = execute_jalr slot instr s
  dispatch_r OpcodeR.mult instr s = ok (execute_mult instr s)
  dispatch_r OpcodeR.multu instr s = ok (execute_multu instr s)
  dispatch_r OpcodeR.div instr s = execute_div instr s
  dispatch_r OpcodeR.divu instr s = execute_divu instr s
  dispatch_r OpcodeR.mfhi instr s = ok (execute_mfhi instr s)
  dispatch_r OpcodeR.mflo instr s = ok (execute_mflo instr s)
  dispatch_r OpcodeR.mthi instr s = ok (execute_mthi instr s)
  dispatch_r OpcodeR.mtlo instr s = ok (execute_mtlo instr s)
  dispatch_r OpcodeR.slt instr s = ok (execute_slt instr s)
  dispatch_r OpcodeR.sltu instr s = ok (execute_sltu instr s)
  dispatch_r OpcodeR.sll instr s = execute_sll instr s
  dispatch_r OpcodeR.sllv instr s = ok (execute_sllv instr s)
  dispatch_r OpcodeR.sra instr s = execute_sra instr s
  dispatch_r OpcodeR.srav instr s = ok (execute_srav instr s)
  dispatch_r OpcodeR.srl instr s = execute_srl instr s
  dispatch_r OpcodeR.srlv instr s = ok (execute_srlv instr s)
  dispatch_r (OpcodeR.unnamed n) instr s = err invalid_instr

  unfoldable pub dispatch_i : OpcodeI → InstructionI → EmulatorState → Outcome EmulatorState
  dispatch_i OpcodeI.addi instr s = ok (execute_addi instr s)
  dispatch_i OpcodeI.addiu instr s = ok (execute_addiu instr s)
  dispatch_i OpcodeI.andi instr s = ok (execute_andi instr s)
  dispatch_i OpcodeI.ori instr s = ok (execute_ori instr s)
  dispatch_i OpcodeI.xori instr s = ok (execute_xori instr s)
  dispatch_i OpcodeI.slti instr s = ok (execute_slti instr s)
  dispatch_i OpcodeI.sltiu instr s = ok (execute_sltiu instr s)
  dispatch_i OpcodeI.lui instr s = ok (execute_lui instr s)
  dispatch_i OpcodeI.lw instr s = ok (execute_lw instr s)
  dispatch_i OpcodeI.lb instr s = execute_lb instr s
  dispatch_i OpcodeI.lbu instr s = execute_lbu instr s
  dispatch_i OpcodeI.lh instr s = execute_lh instr s
  dispatch_i OpcodeI.lhu instr s = execute_lhu instr s
  dispatch_i OpcodeI.sw instr s = ok (execute_sw instr s)
  dispatch_i OpcodeI.sb instr s = execute_sb instr s
  dispatch_i OpcodeI.sh instr s = execute_sh instr s
  dispatch_i OpcodeI.beq instr s = execute_beq slot instr s
  dispatch_i OpcodeI.bgtz instr s = execute_bgtz slot instr s
  dispatch_i OpcodeI.blez instr s = execute_blez slot instr s
  dispatch_i OpcodeI.bne instr s = execute_bne slot instr s
  dispatch_i OpcodeI.lwl instr s = ok (execute_lwl instr s)
  dispatch_i OpcodeI.lwr instr s = ok (execute_lwr instr s)
  dispatch_i OpcodeI.bgez instr s = execute_bgez slot instr s
  dispatch_i OpcodeI.bgezal instr s = execute_bgezal slot instr s
  dispatch_i OpcodeI.bltz instr s = execute_bltz slot instr s
  dispatch_i OpcodeI.bltzal instr s = execute_bltzal slot instr s
  dispatch_i (OpcodeI.unnamed n) instr s = err invalid_instr

  unfoldable pub dispatch_j : OpcodeJ → InstructionJ → EmulatorState → Outcome EmulatorState
  dispatch_j OpcodeJ.j instr s = execute_j slot instr s
  dispatch_j OpcodeJ.jal instr s = execute_jal slot instr s
  dispatch_j (OpcodeJ.unnamed n) instr s = err invalid_instr

  -- `execute(Instruction)`
  unfoldable pub dispatch : Instruction → EmulatorState → Outcome EmulatorState
  unfolding dispatch_r dispatch_i dispatch_j
  dispatch (r_type x) s = dispatch_r x.op x s
  dispatch (i_type x) s = dispatch_i x.op x s
  dispatch (j_type x) s = dispatch_j x.op x s

-- `execute(uint32_t pc)`
unfoldable pub execute : ℕ → ℕ → EmulatorState → Outcome EmulatorState
execute zero pc s = err out_of_fuel
execute (suc fuel) pc s = at s.program pc >>= λ instr. dispatch (execute fuel) instr s

unfoldable pub execute_current : ℕ → EmulatorState → Outcome EmulatorState
execute_current fuel s = execute fuel s.pc s >>= λ s'. ok (record s' { pc = add32 s'.pc 4 })
