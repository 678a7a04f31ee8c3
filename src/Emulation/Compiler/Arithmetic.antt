-- ===== src/Emulation/Compiler/Arithmetic.antt =====
-- Arithmetic, comparisons, shifts, HI and LO: `compile<Op>` to `compile_hi_lo_writeback` and
-- `compile_nor` to `compile_mtlo` of src/emulation/compiler.cpp.
use ji_tboy.Base.{ℕ, ◌==◌, if◌then◌else◌, sext16}
use ji_tboy.Mips.Isa.{InstructionR, InstructionI, zero_reg}
use ji_tboy.Mips.Isa.{Register as MipsRegister}
use ji_tboy.Mips.Classify.{sign_extends_imm}
use ji_tboy.Mips.RegisterFile.{hi_reg, lo_reg}
use ji_tboy.X86.Isa.{
  Opcode, OpcodeExt, CondCode, eax, ecx, edx, op_mov, op_or, op_xor, op_not, ext_not, op_cmp,
  op_cmp_i, ext_cmp_i, op_and_i, ext_and_i, op_sar_i, ext_sar_i, op_div, ext_div, op_idiv, ext_idiv,
}
use ji_tboy.X86.Assembler.{InstrMode}
use ji_tboy.X86.Assembler.Instr.{set_cond_offset}
use ji_tboy.Emulation.Compiler.{Step, emit, ◌⨟◌, skip, addr_reg, acc1_reg}
use ji_tboy.Emulation.Compiler.Registers.{
  calc_reg_offset, emit_instr, emit_ext_offset, emit_imm, compile_reg_load, compile_reg_read,
  compile_reg_write, compile_reg_write_imm, load, store, store_imm,
}

-- `_assembler.set_cond<Cond, InstrMode::RM>(addr_reg, calc_reg_offset(reg))`
unfoldable pub emit_set_cond : CondCode → MipsRegister → Step
unfolding emit set_cond_offset calc_reg_offset
emit_set_cond cond reg = emit (set_cond_offset cond InstrMode.rm addr_reg (calc_reg_offset reg))

-- `compile<Op>(InstructionR)`
unfoldable pub compile_alu : Opcode → InstructionR → Step
unfolding ◌⨟◌ skip compile_reg_load compile_reg_write
compile_alu op instr =
    if instr.rd == zero_reg
    then skip
    else (if instr.rs == instr.rd
        then load acc1_reg instr.rt ⨟ compile_reg_write op instr.rd acc1_reg
        else load acc1_reg instr.rs
          ⨟ compile_reg_load op acc1_reg instr.rt
          ⨟ store instr.rd acc1_reg)

unfoldable pub compile_imm : Opcode → OpcodeExt → MipsRegister → MipsRegister → ℕ → Step
unfolding ◌⨟◌ skip compile_reg_load compile_reg_write compile_reg_write_imm emit_imm
compile_imm op ext dst src imm =
    if dst == zero_reg
    then skip
    else (if dst == src
        then compile_reg_write_imm op ext dst imm
        else load acc1_reg src ⨟ emit_imm op ext acc1_reg imm ⨟ store dst acc1_reg)

-- `compile<Op, Ext>(InstructionI)`
unfoldable pub compile_alu_i : Opcode → OpcodeExt → InstructionI → Step
unfolding compile_imm sign_extends_imm
compile_alu_i op ext instr =
    let constant = if sign_extends_imm instr.op then sext16 instr.constant else instr.constant in
    compile_imm op ext instr.rt instr.rs constant

-- `compile_compare<Cond>(InstructionR)`
unfoldable pub compile_compare : CondCode → InstructionR → Step
unfolding ◌⨟◌ skip compile_reg_load compile_reg_write_imm emit_set_cond
compile_compare cond instr =
    if instr.rd == zero_reg
    then skip
    else load acc1_reg instr.rs
      ⨟ compile_reg_load op_cmp acc1_reg instr.rt
      ⨟ store_imm instr.rd 0
      ⨟ emit_set_cond cond instr.rd

-- `compile_compare<Cond>(InstructionI)`
unfoldable pub compile_compare_i : CondCode → InstructionI → Step
unfolding ◌⨟◌ skip compile_reg_read compile_reg_write_imm emit_set_cond
compile_compare_i cond instr =
    if instr.rt == zero_reg
    then skip
    else compile_reg_read op_cmp_i ext_cmp_i instr.rs (sext16 instr.constant)
      ⨟ store_imm instr.rt 0
      ⨟ emit_set_cond cond instr.rt

unfoldable pub compile_shift_imm : Opcode → OpcodeExt → InstructionR → Step
unfolding compile_imm
compile_shift_imm op ext instr = compile_imm op ext instr.rd instr.rt instr.sa

unfoldable pub compile_shift : Opcode → OpcodeExt → InstructionR → Step
unfolding ◌⨟◌ skip compile_reg_load compile_reg_write emit_instr emit_imm emit_ext_offset
compile_shift op ext instr =
    (if instr.rt == instr.rd then skip else (load acc1_reg instr.rt ⨟ store instr.rd acc1_reg))
    ⨟ emit_instr op_mov acc1_reg addr_reg
    ⨟ load ecx instr.rs
    ⨟ emit_imm op_and_i ext_and_i ecx 0b11111
    ⨟ emit_ext_offset op ext acc1_reg (calc_reg_offset instr.rd)
    ⨟ emit_instr op_mov addr_reg acc1_reg

unfoldable pub compile_hi_lo_writeback : Step
unfolding ◌⨟◌ compile_reg_write
compile_hi_lo_writeback = store hi_reg edx ⨟ store lo_reg eax

unfoldable pub compile_mul : Opcode → OpcodeExt → InstructionR → Step
unfolding ◌⨟◌ compile_reg_load emit_ext_offset compile_hi_lo_writeback
compile_mul op ext instr =
    load eax instr.rs
    ⨟ emit_ext_offset op ext addr_reg (calc_reg_offset instr.rt)
    ⨟ compile_hi_lo_writeback

unfoldable pub compile_div : InstructionR → Step
unfolding ◌⨟◌ compile_reg_load emit_instr emit_imm emit_ext_offset compile_hi_lo_writeback
compile_div instr =
    load eax instr.rs
    ⨟ emit_instr op_mov edx eax
    ⨟ emit_imm op_sar_i ext_sar_i edx 31
    ⨟ emit_ext_offset op_idiv ext_idiv addr_reg (calc_reg_offset instr.rt)
    ⨟ compile_hi_lo_writeback

unfoldable pub compile_divu : InstructionR → Step
unfolding ◌⨟◌ compile_reg_load emit_instr emit_ext_offset compile_hi_lo_writeback
compile_divu instr =
    load eax instr.rs
    ⨟ emit_instr op_xor edx edx
    ⨟ emit_ext_offset op_div ext_div addr_reg (calc_reg_offset instr.rt)
    ⨟ compile_hi_lo_writeback

unfoldable pub compile_nor : InstructionR → Step
unfolding ◌⨟◌ skip compile_alu emit_ext_offset
compile_nor instr =
    if instr.rd == zero_reg
    then skip
    else compile_alu op_or instr
      ⨟ emit_ext_offset op_not ext_not addr_reg (calc_reg_offset instr.rd)

unfoldable pub compile_mfhi : InstructionR → Step
unfolding ◌⨟◌ skip compile_reg_load compile_reg_write
compile_mfhi instr =
    if instr.rd == zero_reg then skip else (load acc1_reg hi_reg ⨟ store instr.rd acc1_reg)

unfoldable pub compile_mflo : InstructionR → Step
unfolding ◌⨟◌ skip compile_reg_load compile_reg_write
compile_mflo instr =
    if instr.rd == zero_reg then skip else (load acc1_reg lo_reg ⨟ store instr.rd acc1_reg)

unfoldable pub compile_mthi : InstructionR → Step
unfolding ◌⨟◌ skip compile_reg_load compile_reg_write
compile_mthi instr =
    if instr.rs == zero_reg then skip else (load acc1_reg instr.rs ⨟ store hi_reg acc1_reg)

unfoldable pub compile_mtlo : InstructionR → Step
unfolding ◌⨟◌ skip compile_reg_load compile_reg_write
compile_mtlo instr =
    if instr.rs == zero_reg then skip else (load acc1_reg instr.rs ⨟ store lo_reg acc1_reg)
