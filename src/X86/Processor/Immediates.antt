-- ===== src/X86/Processor/Immediates.antt =====
-- The processor reads the immediate instructions that src/x86/assembler.hpp emits, those on registers
-- and those on memory, and the instructions of condition codes.
use ji_tboy.Base.{
  ℕ, ◌≡◌, ◌≢◌, ◌<◌, refl, ◌∙◌, ap, true, false, Bool-cases, inl, inr, List, ◌++◌, some, u8, IsU32,
  ok, sext8,
}
use mathlib.Core.List.{append_assoc}
use ji_tboy.VectorBuffer.{bytes}
use ji_tboy.X86.Isa.{RegisterMode, RegisterSize, OpcodeExt, Register, op_add_i, op_mov_i, op_sal_i}
use ji_tboy.X86.Assembler.{
  Assembler, InstrMode, count, write, is_8_bit, encode_regs, encode_regs_offset, write_prefix,
  encode_imm_opcode, is_fast_imm_instr, is_imm8_only_instr, write_imm_opcode, write_immediate,
  write_wide,
}
use ji_tboy.X86.Assembler.Instr.{instr_imm, instr_imm_offset}
use ji_tboy.X86.Assembler.Emission.{little_endian-bytes}
use ji_tboy.X86.Assembler.Operand.{sext8-is_8_bit}
use ji_tboy.X86.Processor.{Operand, reg, mem, Instr, alu_imm, mov_imm, shift_imm}
use ji_tboy.X86.Processor.Decoder.{operand, byte, word, decode, with_byte, with_word}
use ji_tboy.X86.Processor.Operands.{
  EmitsOperand, encode_regs-EmitsOperand, encode_regs_offset-EmitsOperand,
}
use ji_tboy.X86.Processor.Instructions.{Yields, op-Emits, bytes-Emits}

with_byte_lem :
    (f : ℕ → Operand → ℕ → Instr) (code tail : List ℕ) (ext v : ℕ) (o : Operand)
    → ((rest : List ℕ) → operand (code ++ rest) ≡ some (ext, o, rest))
    → with_byte f ((code ++ bytes 1 v) ++ tail) ≡ some (f ext o (u8 v), tail)
unfolding with_byte byte
with_byte_lem f code tail ext v o e = rw (append_assoc, e) refl

with_word_lem :
    (f : ℕ → Operand → ℕ → Instr) (code tail : List ℕ) (ext v : ℕ) (o : Operand)
    → IsU32 v
    → ((rest : List ℕ) → operand (code ++ rest) ≡ some (ext, o, rest))
    → with_word f ((code ++ bytes 4 v) ++ tail) ≡ some (f ext o v, tail)
unfolding with_word word
with_word_lem f code tail ext v o u e = rw (append_assoc, e, little_endian-bytes 4 v u) refl

-- `place` appends an operand behind the opcode.
module _ (place : Assembler → Assembler) (ext : ℕ) (o : Operand)
    (places : (b : Assembler) → (code : List ℕ) × EmitsOperand ext o code b (place b)) (imm : ℕ)
    (a : Assembler) where
  short_eq :
      is_8_bit imm ≡ true
      → write_immediate op_add_i RegisterSize.reg32 imm
          (place (write_imm_opcode op_add_i RegisterSize.reg32 imm (count a)))
        ≡ ok (write 1 imm (place (write 1 0x83 (count a))))
  unfolding write_immediate write_imm_opcode write_prefix encode_imm_opcode is_fast_imm_instr
  short_eq e = rw e refl

  long_eq :
      is_8_bit imm ≡ false
      → write_immediate op_add_i RegisterSize.reg32 imm
          (place (write_imm_opcode op_add_i RegisterSize.reg32 imm (count a)))
        ≡ ok (write 4 imm (place (write 1 0x81 (count a))))
  unfolding write_immediate write_wide write_imm_opcode write_prefix encode_imm_opcode
      is_fast_imm_instr is_imm8_only_instr
  long_eq e = rw e refl

  alu_imm-Yields :
      IsU32 imm
      → Yields (alu_imm ext o imm) a (
          write_immediate op_add_i RegisterSize.reg32 imm
            (place (write_imm_opcode op_add_i RegisterSize.reg32 imm (count a))))
  unfolding Yields decode
  alu_imm-Yields u = elim (Bool-cases (is_8_bit imm)) [
    | inl e ↦
        let (code, p) = places (write 1 0x83 (count a)) in
        (
          _,
          _,
          short_eq e,
          bytes-Emits 1 imm a _ _ (op-Emits 0x83 a _ ext o code p),
          λ tail.
              with_byte_lem (λ r o d. alu_imm r o (sext8 d)) code tail ext imm o p.read
              ∙ ap (λ v. some (alu_imm ext o v, tail)) (sext8-is_8_bit imm e),
        )
    | inr e ↦
        let (code, p) = places (write 1 0x81 (count a)) in
        (
          _,
          _,
          long_eq e,
          bytes-Emits 4 imm a _ _ (op-Emits 0x81 a _ ext o code p),
          λ tail. with_word_lem alu_imm code tail ext imm o u p.read,
        )
  ]

  mov_imm-Yields :
      IsU32 imm
      → Yields (mov_imm o imm) a (
          write_immediate op_mov_i RegisterSize.reg32 imm
            (place (write_imm_opcode op_mov_i RegisterSize.reg32 imm (count a))))
  unfolding Yields decode write_immediate write_wide write_imm_opcode write_prefix encode_imm_opcode
      is_fast_imm_instr is_imm8_only_instr
  mov_imm-Yields u =
      let (code, p) = places (write 1 0xC7 (count a)) in
      (
        _,
        _,
        refl,
        bytes-Emits 4 imm a _ _ (op-Emits 0xC7 a _ ext o code p),
        λ tail. with_word_lem (λ r o d. mov_imm o d) code tail ext imm o u p.read,
      )

  shift_imm-Yields : Yields (shift_imm ext o (u8 imm)) a (
      write_immediate op_sal_i RegisterSize.reg32 imm
        (place (write_imm_opcode op_sal_i RegisterSize.reg32 imm (count a))))
  unfolding Yields decode write_immediate write_wide write_imm_opcode write_prefix encode_imm_opcode
      is_fast_imm_instr is_imm8_only_instr
  shift_imm-Yields =
      let (code, p) = places (write 1 0xC1 (count a)) in
      (
        _,
        _,
        refl,
        bytes-Emits 1 imm a _ _ (op-Emits 0xC1 a _ ext o code p),
        λ tail. with_byte_lem shift_imm code tail ext imm o p.read,
      )

-- On a register
module _ (dst : Register) (ext : OpcodeExt) (imm : ℕ) (a : Assembler) (h : dst < 8)
    (g : ext < 8) where
  in_register :
      (b : Assembler)
      → (code : List ℕ) × EmitsOperand ext
          (reg dst)
          code
          b
          (encode_regs RegisterMode.register dst ext b)
  in_register b = (_, encode_regs-EmitsOperand dst ext b h g)

  pub alu_reg-Yields :
      IsU32 imm
      → Yields
          (alu_imm ext (reg dst) imm)
          a
          (instr_imm op_add_i ext InstrMode.ir RegisterSize.reg32 dst imm a)
  unfolding instr_imm
  alu_reg-Yields u = alu_imm-Yields _ ext (reg dst) in_register imm a u

  pub mov_reg-Yields :
      IsU32 imm
      → Yields
          (mov_imm (reg dst) imm)
          a
          (instr_imm op_mov_i ext InstrMode.ir RegisterSize.reg32 dst imm a)
  unfolding instr_imm
  mov_reg-Yields u = mov_imm-Yields _ ext (reg dst) in_register imm a u

  pub shift_reg-Yields :
      Yields
        (shift_imm ext (reg dst) (u8 imm))
        a
        (instr_imm op_sal_i ext InstrMode.ir RegisterSize.reg32 dst imm a)
  unfolding instr_imm
  shift_reg-Yields = shift_imm-Yields _ ext (reg dst) in_register imm a

-- In memory
module _ (base : Register) (off : ℕ) (ext : OpcodeExt) (imm : ℕ) (a : Assembler) (h : base < 8)
    (g : ext < 8) (n : base ≢ 4) (m : base ≢ 5) (w : IsU32 off) where
  in_memory :
      (b : Assembler)
      → (code : List ℕ) × EmitsOperand ext (mem base off) code b (encode_regs_offset base ext off b)
  in_memory b = encode_regs_offset-EmitsOperand base ext off b h g n m w

  pub alu_mem-Yields :
      IsU32 imm
      → Yields
          (alu_imm ext (mem base off) imm)
          a
          (instr_imm_offset op_add_i ext InstrMode.im RegisterSize.reg32 base imm off a)
  unfolding instr_imm_offset
  alu_mem-Yields u = alu_imm-Yields _ ext (mem base off) in_memory imm a u

  pub mov_mem-Yields :
      IsU32 imm
      → Yields
          (mov_imm (mem base off) imm)
          a
          (instr_imm_offset op_mov_i ext InstrMode.im RegisterSize.reg32 base imm off a)
  unfolding instr_imm_offset
  mov_mem-Yields u = mov_imm-Yields _ ext (mem base off) in_memory imm a u

  pub shift_mem-Yields :
      Yields
        (shift_imm ext (mem base off) (u8 imm))
        a
        (instr_imm_offset op_sal_i ext InstrMode.im RegisterSize.reg32 base imm off a)
  unfolding instr_imm_offset
  shift_mem-Yields = shift_imm-Yields _ ext (mem base off) in_memory imm a
