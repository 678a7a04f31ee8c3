-- ===== src/Emulation/Compiler/Dispatch.antt =====
-- The translation of one instruction: the overloads of `compile` in src/emulation/compiler.cpp.
-- `compile` calls itself for a delay slot; `fuel` counts the calls that may nest.
use ji_tboy.Base.{
  ℕ, zero, suc, bit_and, bit_or, add32, u32, sext16, ◌<<<◌, err, invalid_instr, out_of_fuel,
}
use ji_tboy.Mips.Isa.{
  OpcodeR, OpcodeI, OpcodeJ, Instruction, r_type, i_type, j_type, InstructionR, InstructionI,
  InstructionJ, ra,
}
use ji_tboy.X86.Isa.{
  CondCode, op_add, op_sub, op_and, op_or, op_xor, op_shl_i, ext_shl_i, op_sar_i, ext_sar_i,
  op_shr_i, ext_shr_i, op_shl, ext_shl, op_sar, ext_sar, op_shr, ext_shr, op_imul, ext_imul, op_mul,
  ext_mul, op_add_i, ext_add_i, op_and_i, ext_and_i, op_or_i, ext_or_i, op_xor_i, ext_xor_i,
}
use ji_tboy.Emulation.Compiler.{Host, Step, ◌⨟◌}
use ji_tboy.Emulation.Compiler.Registers.{store_imm}
use ji_tboy.Emulation.Compiler.Arithmetic.{
  compile_alu, compile_alu_i, compile_compare, compile_compare_i, compile_shift_imm, compile_shift,
  compile_mul, compile_div, compile_divu, compile_nor, compile_mfhi, compile_mflo, compile_mthi,
  compile_mtlo,
}
use ji_tboy.Emulation.Compiler.MemoryAccess.{
  read_u32, read_i8, read_u8, read_i16, read_u16, write_u32, write_u8, write_u16, compile_mem_read,
  compile_mem_write, compile_lwl, compile_lwr,
}
use ji_tboy.Emulation.Compiler.Control.{
  compile_branch, compile_branch_and_link, compile_jump, compile_jump_reg, compile_jump_and_link,
}

-- `throw_invalid_instr`
unfoldable pub throw_invalid_instr : Step
throw_invalid_instr c = err invalid_instr

module _ (host : Host) (slot : Instruction → ℕ → Step) where
  -- `compile(InstructionR, addr)`
  unfoldable pub compile_r : OpcodeR → InstructionR → ℕ → Step
  unfolding throw_invalid_instr
  compile_r OpcodeR.addu instr addr = compile_alu op_add instr
  compile_r OpcodeR.add instr addr = compile_alu op_add instr
  compile_r OpcodeR.subu instr addr = compile_alu op_sub instr
  compile_r OpcodeR.sub instr addr = compile_alu op_sub instr
  compile_r OpcodeR.and instr addr = compile_alu op_and instr
  compile_r OpcodeR.or instr addr = compile_alu op_or instr
  compile_r OpcodeR.xor instr addr = compile_alu op_xor instr
  compile_r OpcodeR.nor instr addr = compile_nor instr
  compile_r OpcodeR.jr instr addr = compile_jump_reg slot instr.rs addr
  compile_r OpcodeR.jalr instr addr = compile_jump_and_link slot instr.rs instr.rd addr
  compile_r OpcodeR.slt instr addr = compile_compare CondCode.l instr
  compile_r OpcodeR.sltu instr addr = compile_compare CondCode.b instr
  compile_r OpcodeR.sll instr addr = compile_shift_imm op_shl_i ext_shl_i instr
  compile_r OpcodeR.sra instr addr = compile_shift_imm op_sar_i ext_sar_i instr
  compile_r OpcodeR.srl instr addr = compile_shift_imm op_shr_i ext_shr_i instr
  compile_r OpcodeR.sllv instr addr = compile_shift op_shl ext_shl instr
  compile_r OpcodeR.srav instr addr = compile_shift op_sar ext_sar instr
  compile_r OpcodeR.srlv instr addr = compile_shift op_shr ext_shr instr
  compile_r OpcodeR.mfhi instr addr = compile_mfhi instr
  compile_r OpcodeR.mflo instr addr = compile_mflo instr
  compile_r OpcodeR.mthi instr addr = compile_mthi instr
  compile_r OpcodeR.mtlo instr addr = compile_mtlo instr
  compile_r OpcodeR.mult instr addr = compile_mul op_imul ext_imul instr
  compile_r OpcodeR.multu instr addr = compile_mul op_mul ext_mul instr
  compile_r OpcodeR.div instr addr = compile_div instr
  compile_r OpcodeR.divu instr addr = compile_divu instr
  compile_r (OpcodeR.unnamed n) instr addr = throw_invalid_instr

  -- `compile(InstructionI, addr)`
  unfoldable pub compile_i : OpcodeI → InstructionI → ℕ → Step
  unfolding throw_invalid_instr
  compile_i OpcodeI.addiu instr addr = compile_alu_i op_add_i ext_add_i instr
  compile_i OpcodeI.addi instr addr = compile_alu_i op_add_i ext_add_i instr
  compile_i OpcodeI.andi instr addr = compile_alu_i op_and_i ext_and_i instr
  compile_i OpcodeI.ori instr addr = compile_alu_i op_or_i ext_or_i instr
  compile_i OpcodeI.xori instr addr = compile_alu_i op_xor_i ext_xor_i instr
  compile_i OpcodeI.slti instr addr = compile_compare_i CondCode.l instr
  compile_i OpcodeI.sltiu instr addr = compile_compare_i CondCode.b instr
  compile_i OpcodeI.beq instr addr = compile_branch slot CondCode.e instr addr
  compile_i OpcodeI.bne instr addr = compile_branch slot CondCode.ne instr addr
  compile_i OpcodeI.bgtz instr addr = compile_branch slot CondCode.g instr addr
  compile_i OpcodeI.blez instr addr = compile_branch slot CondCode.le instr addr
  compile_i OpcodeI.bgez instr addr = compile_branch slot CondCode.ge instr addr
  compile_i OpcodeI.bltz instr addr = compile_branch slot CondCode.l instr addr
  compile_i OpcodeI.bgezal instr addr = compile_branch_and_link slot CondCode.ge instr addr
  compile_i OpcodeI.bltzal instr addr = compile_branch_and_link slot CondCode.l instr addr
  compile_i OpcodeI.lw instr addr = compile_mem_read host read_u32 instr
  compile_i OpcodeI.lb instr addr = compile_mem_read host read_i8 instr
  compile_i OpcodeI.lbu instr addr = compile_mem_read host read_u8 instr
  compile_i OpcodeI.lh instr addr = compile_mem_read host read_i16 instr
  compile_i OpcodeI.lhu instr addr = compile_mem_read host read_u16 instr
  compile_i OpcodeI.sw instr addr = compile_mem_write host write_u32 instr
  compile_i OpcodeI.sb instr addr = compile_mem_write host write_u8 instr
  compile_i OpcodeI.sh instr addr = compile_mem_write host write_u16 instr
  compile_i OpcodeI.lwl instr addr = compile_lwl host instr
  compile_i OpcodeI.lwr instr addr = compile_lwr host instr
  compile_i OpcodeI.lui instr addr = store_imm instr.rt (u32 (sext16 instr.constant <<< 16))
  compile_i (OpcodeI.unnamed n) instr addr = throw_invalid_instr

  abbrev pub j_target : ℕ → ℕ → ℕ
  j_target addr target = bit_or (bit_and 0xF000_0000 addr) (u32 (target <<< 2))

  -- `compile(InstructionJ, addr)`: JAL falls through to J.
  unfoldable pub compile_j : OpcodeJ → InstructionJ → ℕ → Step
  unfolding throw_invalid_instr ◌⨟◌
  compile_j OpcodeJ.j instr addr = compile_jump slot (j_target addr instr.target) addr
  compile_j OpcodeJ.jal instr addr =
      store_imm ra (add32 addr 8) ⨟ compile_jump slot (j_target addr instr.target) addr
  compile_j (OpcodeJ.unnamed n) instr addr = throw_invalid_instr

  -- The body of `compile(Instruction, addr)`
  unfoldable pub compile_instr : Instruction → ℕ → Step
  unfolding compile_r compile_i compile_j
  compile_instr (r_type x) addr = compile_r x.op x addr
  compile_instr (i_type x) addr = compile_i x.op x addr
  compile_instr (j_type x) addr = compile_j x.op x addr

-- `compile(Instruction, addr)`
unfoldable pub compile : Host → ℕ → Instruction → ℕ → Step
compile host zero instr addr c = err out_of_fuel
compile host (suc fuel) instr addr c = compile_instr host (compile host fuel) instr addr c
