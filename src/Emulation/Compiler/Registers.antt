-- ===== src/Emulation/Compiler/Registers.antt =====
-- Loads and stores of guest registers: `calc_reg_offset`, `compile_reg_load`, `compile_reg_read` and
-- `compile_reg_write` of src/emulation/compiler.cpp. Template arguments are arguments.
use ji_tboy.Base.{ℕ, ◌*◌, ◌==◌, if◌then◌else◌, u32, err, zero_write}
use ji_tboy.Mips.Isa.{zero_reg}
use ji_tboy.Mips.Isa.{Register as MipsRegister}
use ji_tboy.X86.Isa.{Opcode, OpcodeExt, RegisterSize, Register, op_mov, op_mov_i, ext_mov_i}
use ji_tboy.X86.Assembler.{InstrMode}
use ji_tboy.X86.Assembler.Instr.{
  instr, instr_offset, instr_ext, instr_ext_offset, instr_imm, instr_imm_offset,
}
use ji_tboy.Emulation.Compiler.{Step, emit, addr_reg}

unfoldable pub calc_reg_offset : MipsRegister → ℕ
calc_reg_offset reg = u32 (reg * 4)

-- `_assembler.instr<Op>(dst, src)`
unfoldable pub emit_instr : Opcode → Register → Register → Step
unfolding emit instr
emit_instr op dst src = emit (instr op InstrMode.rr RegisterSize.reg32 dst src)

-- `_assembler.instr<Op, Ext>(reg)`
unfoldable pub emit_ext : Opcode → OpcodeExt → Register → Step
unfolding emit instr_ext
emit_ext op ext reg = emit (instr_ext op ext InstrMode.rr RegisterSize.reg32 reg)

-- `_assembler.instr<Op, Ext, InstrMode::RM>(reg, addr_offset)`
unfoldable pub emit_ext_offset : Opcode → OpcodeExt → Register → ℕ → Step
unfolding emit instr_ext_offset
emit_ext_offset op ext reg addr_offset =
    emit (instr_ext_offset op ext InstrMode.rm RegisterSize.reg32 reg addr_offset)

-- `_assembler.instr_imm<Op, Ext>(dst, imm)`
unfoldable pub emit_imm : Opcode → OpcodeExt → Register → ℕ → Step
unfolding emit instr_imm
emit_imm op ext dst imm = emit (instr_imm op ext InstrMode.ir RegisterSize.reg32 dst imm)

unfoldable pub compile_reg_load : Opcode → Register → MipsRegister → Step
unfolding emit instr_offset calc_reg_offset
compile_reg_load op dst src =
    emit (instr_offset op InstrMode.mr RegisterSize.reg32 dst addr_reg (calc_reg_offset src))

unfoldable pub compile_reg_read : Opcode → OpcodeExt → MipsRegister → ℕ → Step
unfolding emit instr_imm_offset calc_reg_offset
compile_reg_read op ext src imm =
    emit
      (instr_imm_offset op ext InstrMode.im RegisterSize.reg32 addr_reg imm (calc_reg_offset src))

-- `compile_reg_write(mips::Register, x86::Register)`
unfoldable pub compile_reg_write : Opcode → MipsRegister → Register → Step
unfolding emit instr_offset calc_reg_offset
compile_reg_write op dst src c =
    if dst == zero_reg
    then err zero_write
    else emit (instr_offset op InstrMode.rm RegisterSize.reg32 addr_reg src (calc_reg_offset dst)) c

-- `compile_reg_write(mips::Register, uint32_t)`
unfoldable pub compile_reg_write_imm : Opcode → OpcodeExt → MipsRegister → ℕ → Step
unfolding emit instr_imm_offset calc_reg_offset
compile_reg_write_imm op ext dst imm c =
    if dst == zero_reg
    then err zero_write
    else emit
        (instr_imm_offset op ext InstrMode.im RegisterSize.reg32 addr_reg imm (calc_reg_offset dst))
        c

-- The default template arguments
abbrev pub load : Register → MipsRegister → Step
load = compile_reg_load op_mov

abbrev pub store : MipsRegister → Register → Step
store = compile_reg_write op_mov

abbrev pub store_imm : MipsRegister → ℕ → Step
store_imm = compile_reg_write_imm op_mov_i ext_mov_i
