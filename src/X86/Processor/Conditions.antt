-- ===== src/X86/Processor/Conditions.antt =====
-- The processor reads the instructions of condition codes that src/x86/assembler.hpp emits.
use ji_tboy.Base.{ℕ, ◌≡◌, ◌≢◌, ◌<◌, refl, ◌∙◌, arith, List, [], ◌∷◌, ◌++◌, u8, IsU32}
use mathlib.Core.List.{append_assoc}
use ji_tboy.VectorBuffer.{write as write_bytes}
use ji_tboy.X86.Isa.{RegisterSize, Register, CondCode, op_set_cc, op_cmov_cc}
use ji_tboy.X86.Assembler.{
  Assembler, InstrMode, count, write, write_prefix, encode_opcode, write_opcode,
}
use ji_tboy.X86.Assembler.Instr.{
  set_cond_offset, move_cond, instr, instr_offset, cond_op, move_cond_prefix,
}
use ji_tboy.X86.Assembler.Emission.{Emits}
use ji_tboy.X86.Processor.{Operand, reg, mem, Instr}
use ji_tboy.X86.Processor.Decoder.{decode, to_operand}
use ji_tboy.X86.Processor.Operands.{
  EmitsOperand, encode_regs-EmitsOperand, encode_regs_offset-EmitsOperand,
}
use ji_tboy.X86.Processor.Instructions.{Yields, to_operand_lem}

-- An opcode byte behind 0F, whose count comes between the two
prefixed-Emits :
    (op : ℕ) (a a' : Assembler) (src : ℕ) (o : Operand) (code : List ℕ)
    → EmitsOperand src o code (write 1 op (count (write 1 0x0F a))) a'
    → Emits (0x0F ∷ u8 op ∷ code) a a'
unfolding write write_bytes count
prefixed-Emits op a a' src o code e = record {
  appended =
      e.appended
      ∙ append_assoc (a.buffer.buffer ++ (0x0F ∷ [])) (u8 op ∷ []) code
      ∙ append_assoc a.buffer.buffer (0x0F ∷ []) (u8 op ∷ code);
  counted = e.counted;
}

-- `op` is the second byte of an instruction of an operand and a register.
abbrev pub IsForm0f : ℕ → (Operand → ℕ → Instr) → Type 0
IsForm0f op f = (bs : List ℕ) → decode (0x0F ∷ u8 op ∷ bs) ≡ to_operand f bs

pub set_cond-Yields :
    (f : Operand → ℕ → Instr) (cond : CondCode) (base : Register) (off : ℕ) (a : Assembler)
    → IsForm0f (encode_opcode (cond_op op_set_cc cond) InstrMode.rm RegisterSize.reg8) f
    → base < 8
    → base ≢ 4
    → base ≢ 5
    → IsU32 off
    → Yields (f (mem base off) 0) a (set_cond_offset cond InstrMode.rm base off a)
unfolding Yields set_cond_offset instr_offset write_opcode write_prefix
set_cond-Yields f cond base off a k h n m u =
    let op = encode_opcode (cond_op op_set_cc cond) InstrMode.rm RegisterSize.reg8 in
    let (code, e) =
      encode_regs_offset-EmitsOperand base 0 off (write 1 op (count (write 1 0x0F a))) h
        (omega arith) n m u in
    (
      _,
      _,
      refl,
      prefixed-Emits op a _ _ _ _ e,
      λ tail. k _ ∙ to_operand_lem f _ tail 0 (mem base off) (e.read tail),
    )

pub move_cond-Yields :
    (f : Operand → ℕ → Instr) (cond : CondCode) (dst src : Register) (a : Assembler)
    → IsForm0f (encode_opcode (cond_op op_cmov_cc cond) InstrMode.rr RegisterSize.reg8) f
    → dst < 8
    → src < 8
    → Yields (f (reg src) dst) a (move_cond cond InstrMode.rr RegisterSize.reg32 dst src a)
unfolding Yields move_cond move_cond_prefix instr write_opcode write_prefix
move_cond-Yields f cond dst src a k h g =
    let op = encode_opcode (cond_op op_cmov_cc cond) InstrMode.rr RegisterSize.reg8 in
    let e = encode_regs-EmitsOperand src dst (write 1 op (count (write 1 0x0F a))) g h in
    (
      _,
      _,
      refl,
      prefixed-Emits op a _ _ _ _ e,
      λ tail. k _ ∙ to_operand_lem f _ tail dst (reg src) (e.read tail),
    )
