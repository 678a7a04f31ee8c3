-- ===== src/Tests/X86.antt =====
-- The code generator's parts at concrete inputs.
use ji_tboy.Base.{ℕ, ◌≡◌, arith, List, [], ◌∷◌, ◌++◌, length, some}
use ji_tboy.X86.Isa.{CondCode, cond_code, RegisterSize, op_add_i}
use ji_tboy.X86.Assembler.{Assembler, InstrMode, JumpAdjust, encode_regs_offset}
use ji_tboy.X86.Assembler.Instr.{instr_imm}
use ji_tboy.X86.Assembler.Jump.{jump, jump_cond}
use ji_tboy.X86.Assembler.Emission.{Emits}
use ji_tboy.X86.Assembler.JumpTarget.{wanted, jump-jump_target, jump_cond-cond_jump_target}
use ji_tboy.X86.Assembler.Operand.{encode_regs_offset-displacement}
use ji_tboy.X86.Assembler.Immediate.{Reads, instr_imm-arithmetic}
use ji_tboy.X86.Linker.{Linker}
use ji_tboy.X86.Decode.{jump_target, cond_jump_target, displacement}

abbrev fresh : Assembler
fresh = record { buffer = record { buffer = [] }; instr_count = 0 }

-- 129 bytes ahead of the jump's first byte is near, and 126 bytes back too.
jump-jump_target_example :
    (code : List ℕ) × Emits code fresh (jump JumpAdjust.always 129 fresh)
    × (jump_target code ≡ some (wanted JumpAdjust.always 129 (length code)))
jump-jump_target_example = jump-jump_target JumpAdjust.always 129 fresh (omega arith)

jump_cond-cond_jump_target_example :
    (code : List ℕ) × Emits code fresh (jump_cond JumpAdjust.auto CondCode.ne 0xFFFF_FF82 fresh)
    × (cond_jump_target code
        ≡ some (cond_code CondCode.ne, wanted JumpAdjust.auto 0xFFFF_FF82 (length code)))
jump_cond-cond_jump_target_example =
    jump_cond-cond_jump_target JumpAdjust.auto CondCode.ne 0xFFFF_FF82 fresh (omega arith)
      (omega arith)

encode_regs_offset-displacement_example :
    (code : List ℕ) × ((encode_regs_offset 3 0 8 fresh).buffer.buffer ≡ fresh.buffer.buffer ++ code)
    × (displacement code ≡ some (0, 3, 8))
encode_regs_offset-displacement_example =
    encode_regs_offset-displacement 3 0 8 fresh (omega arith) (omega arith) (omega arith)
      (omega arith) (omega arith)

instr_imm-arithmetic_example :
    Reads 0x80 0 3 0xFFFF_FFFF fresh
      (instr_imm op_add_i 0 InstrMode.ir RegisterSize.reg32 3 0xFFFF_FFFF fresh)
instr_imm-arithmetic_example =
    instr_imm-arithmetic 3 0 0xFFFF_FFFF fresh (omega arith) (omega arith) (omega arith)

-- Two calls, of a global label and of one of the block's own.
abbrev linking : Linker
linking = record {
  unresolved_locals = (5, 7) ∷ (12, 9) ∷ [];
  local_map = (9, 3) ∷ [];
  global_map = (7, 0x1000) ∷ [];
}
