-- ===== src/X86/Assembler.antt =====
-- The assembler: src/x86/assembler.hpp and assembler.cpp. Template arguments are arguments; a
-- 32-bit offset or immediate is its pattern; the debug stream is left out. An instruction mode
-- that has no encoding throws.
pub mod Emission
pub mod Instr
pub mod Operand
pub mod Immediate
pub mod Jump
pub mod JumpTarget
use ji_tboy.Base.{
  ℕ, ◌+◌, ◌*◌, Bool, true, false, ◌==◌, ◌&&◌, ◌||◌, not, if◌then◌else◌, bit_or, u8, u16, sext8,
  sub32, slt32, is_neg32, ◌<<<◌, Outcome, ok, err, ◌>>=◌, bad_mode,
}
use ji_tboy.VectorBuffer.{VectorBuffer}
use ji_tboy.VectorBuffer.{write as write_bytes, size as buffer_size, reset as buffer_reset}
use ji_tboy.X86.Isa.{
  Opcode, OpcodeExt, OpcodePrefix, RegisterSize, RegisterMode, mode_code, Register, CondCode,
  cond_code, op_call, op_ret, op_mov_i, op_sal_i, op_enter, op_jmp_8, op_jmp_32, op_jcc_8,
  op_jcc_32, op_cmov_cc, op_set_cc, prefix_size16, prefix_cmov_cc, prefix_set_cc, prefix_jcc_32,
}

pub data InstrMode : Type 0 where
  rr : InstrMode
  rm : InstrMode
  mr : InstrMode
  ir : InstrMode
  im : InstrMode

pub data JumpAdjust : Type 0 where
  never : JumpAdjust
  always : JumpAdjust
  auto : JumpAdjust

pub record Assembler : Type 0 where
  pub buffer : VectorBuffer
  pub instr_count : ℕ

unfoldable pub reset : Assembler → Assembler
unfolding buffer_reset
reset a = record { buffer = buffer_reset a.buffer; instr_count = 0 }

unfoldable pub size : Assembler → ℕ
unfolding buffer_size
size a = buffer_size a.buffer

-- `_buffer.write<T>` for a `T` of `n` bytes
unfoldable pub write : ℕ → ℕ → Assembler → Assembler
unfolding write_bytes
write n value a = record a { buffer = write_bytes n a.buffer value }

-- `_instr_count++`
unfoldable pub count : Assembler → Assembler
count a = record a { instr_count = a.instr_count + 1 }

unfoldable pub is_8_bit : ℕ → Bool
is_8_bit val = val == sext8 (u8 val)

abbrev pub is_wide : RegisterSize → Bool
is_wide RegisterSize.reg16 = true
is_wide RegisterSize.reg32 = true
is_wide _ = false

abbrev pub is_mr : InstrMode → Bool
is_mr InstrMode.mr = true
is_mr _ = false

unfoldable pub encode_opcode : Opcode → InstrMode → RegisterSize → ℕ
encode_opcode op mode size =
    let op = if is_wide size then bit_or op 0b1 else op in if is_mr mode then bit_or op 0b10 else op

unfoldable pub is_fast_imm_instr : Opcode → Bool
is_fast_imm_instr op = not (op == op_mov_i || op == op_call || op == op_ret || op == op_sal_i)

unfoldable pub is_imm8_only_instr : Opcode → Bool
is_imm8_only_instr op = op == op_sal_i

abbrev pub is_reg8 : RegisterSize → Bool
is_reg8 RegisterSize.reg8 = true
is_reg8 _ = false

unfoldable pub encode_imm_opcode : Opcode → RegisterSize → ℕ → ℕ
unfolding is_fast_imm_instr is_8_bit
encode_imm_opcode op size imm =
    if is_reg8 size
    then op
    else (let opcode = bit_or op 0b1 in
        if is_fast_imm_instr op && is_8_bit imm then bit_or opcode 0b10 else opcode)

-- `OpcodePrefix::Size16` in front of a 16-bit instruction
unfoldable pub write_prefix : RegisterSize → Assembler → Assembler
unfolding write
write_prefix RegisterSize.reg16 a = write 1 prefix_size16 a
write_prefix _ a = a

unfoldable pub write_opcode : Opcode → InstrMode → RegisterSize → Assembler → Assembler
unfolding write write_prefix encode_opcode
write_opcode op mode size a = write 1 (encode_opcode op mode size) (write_prefix size a)

unfoldable pub write_imm_opcode : Opcode → RegisterSize → ℕ → Assembler → Assembler
unfolding write write_prefix encode_imm_opcode
write_imm_opcode op size imm a = write 1 (encode_imm_opcode op size imm) (write_prefix size a)

unfoldable pub write_wide : RegisterSize → ℕ → Assembler → Outcome Assembler
unfolding write
write_wide RegisterSize.reg16 imm a = ok (write 2 imm a)
write_wide RegisterSize.reg32 imm a = ok (write 4 imm a)
write_wide _ imm a = err bad_mode

unfoldable pub write_immediate : Opcode → RegisterSize → ℕ → Assembler → Outcome Assembler
unfolding write write_wide is_fast_imm_instr is_imm8_only_instr is_8_bit
write_immediate op size imm a =
    if is_reg8 size || (is_fast_imm_instr op && is_8_bit imm) || is_imm8_only_instr op
    then ok (write 1 imm a)
    else write_wide size imm a

unfoldable pub encode_regs : RegisterMode → Register → Register → Assembler → Assembler
unfolding write
encode_regs mode dst src a = write 1 (bit_or (bit_or (mode_code mode) (src <<< 3)) dst) a

unfoldable pub encode_regs_offset : Register → Register → ℕ → Assembler → Assembler
unfolding write encode_regs is_8_bit
encode_regs_offset dst src addr_offset a =
    if addr_offset == 0
    then encode_regs RegisterMode.memory_disp0 dst src a
    else (if is_8_bit addr_offset
        then write 1 addr_offset (encode_regs RegisterMode.memory_disp1 dst src a)
        else write 4 addr_offset (encode_regs RegisterMode.memory_disp4 dst src a))
