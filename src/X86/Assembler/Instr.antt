-- ===== src/X86/Assembler/Instr.antt =====
-- The instructions of src/x86/assembler.hpp that are no jumps, and `bswap` and `enter` of
-- src/x86/assembler.cpp.
use ji_tboy.Base.{ℕ, bit_or, Outcome, ok, err, ◌>>=◌, bad_mode}
use ji_tboy.X86.Isa.{
  Opcode, OpcodeExt, RegisterSize, RegisterMode, Register, CondCode, cond_code, op_enter,
  op_cmov_cc, op_set_cc, prefix_size16, prefix_cmov_cc, prefix_set_cc,
}
use ji_tboy.X86.Assembler.{
  Assembler, InstrMode, count, write, write_opcode, write_imm_opcode, write_immediate, encode_regs,
  encode_regs_offset,
}

-- `instr<Op, Mode, Size>(dst, src)`
unfoldable pub instr :
    Opcode → InstrMode → RegisterSize → Register → Register → Assembler → Outcome Assembler
unfolding count write_opcode encode_regs
instr op InstrMode.rr size dst src a =
    ok (encode_regs RegisterMode.register dst src (write_opcode op InstrMode.rr size (count a)))
instr op InstrMode.rm size dst src a =
    ok (encode_regs RegisterMode.memory_disp0 dst src (write_opcode op InstrMode.rm size (count a)))
instr op InstrMode.mr size dst src a =
    ok (encode_regs RegisterMode.memory_disp0 src dst (write_opcode op InstrMode.mr size (count a)))
instr op _ size dst src a = err bad_mode

-- `instr<Op, Mode, Size>(dst, src, addr_offset)`
unfoldable pub instr_offset :
    Opcode → InstrMode → RegisterSize → Register → Register → ℕ → Assembler → Outcome Assembler
unfolding count write_opcode encode_regs_offset
instr_offset op InstrMode.rm size dst src addr_offset a =
    ok (encode_regs_offset dst src addr_offset (write_opcode op InstrMode.rm size (count a)))
instr_offset op InstrMode.mr size dst src addr_offset a =
    ok (encode_regs_offset src dst addr_offset (write_opcode op InstrMode.mr size (count a)))
instr_offset op _ size dst src addr_offset a = err bad_mode

-- `instr<Op, Ext, Mode, Size>(reg)`
unfoldable pub instr_ext :
    Opcode → OpcodeExt → InstrMode → RegisterSize → Register → Assembler → Outcome Assembler
unfolding instr
instr_ext op ext mode size reg a = instr op mode size reg ext a

-- `instr<Op, Ext, Mode, Size>(reg, addr_offset)`: `MR` throws, as `IR` and `IM` do.
unfoldable pub instr_ext_offset :
    Opcode → OpcodeExt → InstrMode → RegisterSize → Register → ℕ → Assembler → Outcome Assembler
unfolding instr_offset
instr_ext_offset op ext InstrMode.rr size reg addr_offset a =
    instr_offset op InstrMode.rr size reg ext addr_offset a
instr_ext_offset op ext InstrMode.rm size reg addr_offset a =
    instr_offset op InstrMode.rm size reg ext addr_offset a
instr_ext_offset op ext _ size reg addr_offset a = err bad_mode

-- `instr<Op>()`
unfoldable pub instr_plain : Opcode → Assembler → Assembler
unfolding count write
instr_plain op a = write 1 op (count a)

-- `instr_imm<Op, Ext, Mode, Size>(dst, imm)`
unfoldable pub instr_imm :
    Opcode → OpcodeExt → InstrMode → RegisterSize → Register → ℕ → Assembler → Outcome Assembler
unfolding count write_imm_opcode encode_regs write_immediate
instr_imm op ext InstrMode.ir size dst imm a =
    write_immediate op size imm
      (encode_regs RegisterMode.register dst ext (write_imm_opcode op size imm (count a)))
instr_imm op ext InstrMode.im size dst imm a =
    write_immediate op size imm
      (encode_regs RegisterMode.memory_disp0 dst ext (write_imm_opcode op size imm (count a)))
instr_imm op ext _ size dst imm a = err bad_mode

-- `instr_imm<Op, Ext, Mode, Size>(dst, imm, addr_offset)`
unfoldable pub instr_imm_offset :
    Opcode → OpcodeExt → InstrMode → RegisterSize → Register → ℕ → ℕ → Assembler → Outcome Assembler
unfolding count write_imm_opcode encode_regs_offset write_immediate
instr_imm_offset op ext InstrMode.im size dst imm addr_offset a =
    write_immediate op size imm
      (encode_regs_offset dst ext addr_offset (write_imm_opcode op size imm (count a)))
instr_imm_offset op ext _ size dst imm addr_offset a = err bad_mode

-- The prefix that `move_cond` writes for its operand size.
unfoldable pub move_cond_prefix : RegisterSize → Assembler → Outcome Assembler
unfolding write
move_cond_prefix RegisterSize.reg8 a = err bad_mode
move_cond_prefix RegisterSize.reg16 a = ok (write 1 prefix_size16 a)
move_cond_prefix _ a = ok a

abbrev pub cond_op : Opcode → CondCode → Opcode
cond_op op cond = bit_or op (cond_code cond)

-- `move_cond<Cond, Mode, Size>(dst, src)`
unfoldable pub move_cond :
    CondCode → InstrMode → RegisterSize → Register → Register → Assembler → Outcome Assembler
unfolding move_cond_prefix instr write
move_cond cond InstrMode.rr size dst src a = do
  a' ← move_cond_prefix size a
  instr (cond_op op_cmov_cc cond) InstrMode.rr RegisterSize.reg8 src dst (write 1 prefix_cmov_cc a')
move_cond cond InstrMode.mr size dst src a = do
  a' ← move_cond_prefix size a
  instr (cond_op op_cmov_cc cond) InstrMode.rm RegisterSize.reg8 src dst (write 1 prefix_cmov_cc a')
move_cond cond _ size dst src a = err bad_mode

-- `move_cond<Cond, Mode, Size>(dst, src, addr_offset)`
unfoldable pub move_cond_offset :
    CondCode → InstrMode → RegisterSize → Register → Register → ℕ → Assembler → Outcome Assembler
unfolding move_cond_prefix instr_offset write
move_cond_offset cond InstrMode.mr size dst src addr_offset a = do
  a' ← move_cond_prefix size a
  instr_offset (cond_op op_cmov_cc cond) InstrMode.rm RegisterSize.reg8 src dst addr_offset
      (write 1 prefix_cmov_cc a')
move_cond_offset cond _ size dst src addr_offset a = err bad_mode

-- `set_cond<Cond, Mode>(dst)`
unfoldable pub set_cond : CondCode → InstrMode → Register → Assembler → Outcome Assembler
unfolding instr write
set_cond cond InstrMode.rr dst a =
    instr (cond_op op_set_cc cond) InstrMode.rr RegisterSize.reg8 dst 0 (write 1 prefix_set_cc a)
set_cond cond InstrMode.rm dst a =
    instr (cond_op op_set_cc cond) InstrMode.rm RegisterSize.reg8 dst 0 (write 1 prefix_set_cc a)
set_cond cond _ dst a = err bad_mode

-- `set_cond<Cond, Mode>(dst, addr_offset)`
unfoldable pub set_cond_offset : CondCode → InstrMode → Register → ℕ → Assembler → Outcome Assembler
unfolding instr_offset write
set_cond_offset cond InstrMode.rm dst addr_offset a =
    instr_offset (cond_op op_set_cc cond) InstrMode.rm RegisterSize.reg8 dst 0 addr_offset
      (write 1 prefix_set_cc a)
set_cond_offset cond _ dst addr_offset a = err bad_mode

unfoldable pub bswap : Register → Assembler → Assembler
unfolding count write
bswap dst a = write 1 (bit_or 0xC8 dst) (write 1 0x0F (count a))

unfoldable pub enter : ℕ → ℕ → Assembler → Assembler
unfolding count write
enter size nesting a = write 1 nesting (write 2 size (write 1 op_enter (count a)))
