-- ===== src/X86/Assembler/Immediate.antt =====
-- The immediates that src/x86/assembler.hpp emits, against what the processor reads.
use ji_tboy.Base.{
  ℕ, ◌≡◌, ◌<◌, refl, true, false, Bool-cases, inl, inr, List, ◌∷◌, some, u8, IsU32, ok, Outcome,
}
use ji_tboy.VectorBuffer.{bytes}
use ji_tboy.X86.Isa.{RegisterMode, RegisterSize, OpcodeExt, Register, op_add_i, op_mov_i, op_sal_i}
use ji_tboy.X86.Assembler.{
  Assembler, InstrMode, count, write, is_8_bit, encode_regs, encode_imm_opcode, is_fast_imm_instr,
  is_imm8_only_instr, write_prefix, write_imm_opcode, write_immediate, write_wide,
}
use ji_tboy.X86.Assembler.Instr.{instr_imm}
use ji_tboy.X86.Assembler.Emission.{Emits, write_3-Emits, little_endian-bytes}
use ji_tboy.X86.Assembler.Operand.{modrm, mode-modrm, reg-modrm, rm-modrm, sext8-is_8_bit}
use ji_tboy.X86.Decode.{register_immediate}

-- `code` is what `m` appends, one instruction, and the processor reads `(group, ext, dst, imm)` from it.
pub Reads : ℕ → OpcodeExt → Register → ℕ → Assembler → Outcome Assembler → Type 0
Reads group ext dst imm a m =
    (code : List ℕ) × (a' : Assembler) × (m ≡ ok a')
    × Emits code a a'
    × (register_immediate code ≡ some (group, ext, dst, imm))

module _ (dst : Register) (ext : OpcodeExt) (imm : ℕ) (a : Assembler) (h : dst < 8)
    (g : ext < 8) where
  m : ℕ
  m = modrm RegisterMode.register dst ext

  emits :
      (n op : ℕ)
      → Emits
          (u8 op ∷ m ∷ bytes n imm)
          a
          (write n imm (encode_regs RegisterMode.register dst ext (write 1 op (count a))))
  unfolding m encode_regs
  emits n op = write_3-Emits n op _ imm a

  short_eq :
      is_8_bit imm ≡ true
      → instr_imm op_add_i ext InstrMode.ir RegisterSize.reg32 dst imm a
        ≡ ok (write 1 imm (encode_regs RegisterMode.register dst ext (write 1 0x83 (count a))))
  unfolding instr_imm write_immediate write_imm_opcode write_prefix encode_imm_opcode
      is_fast_imm_instr
  short_eq e = rw e refl

  long_eq :
      is_8_bit imm ≡ false
      → instr_imm op_add_i ext InstrMode.ir RegisterSize.reg32 dst imm a
        ≡ ok (write 4 imm (encode_regs RegisterMode.register dst ext (write 1 0x81 (count a))))
  unfolding instr_imm write_immediate write_wide write_imm_opcode write_prefix encode_imm_opcode
      is_fast_imm_instr is_imm8_only_instr
  long_eq e = rw e refl

  -- For register numbers below 8 and a 32-bit immediate, an arithmetic instruction on a 32-bit
  -- register is emitted as one instruction, in which the processor reads the register, the
  -- extension and the immediate given, also where it is shortened to a byte.
  pub instr_imm-arithmetic :
      IsU32 imm
      → Reads 0x80 ext dst imm a (instr_imm op_add_i ext InstrMode.ir RegisterSize.reg32 dst imm a)
  unfolding Reads register_immediate m
  instr_imm-arithmetic i = elim (Bool-cases (is_8_bit imm)) [
    | inl e ↦ (
      _,
      _,
      short_eq e,
      emits 1 0x83,
      rw
          (
            mode-modrm RegisterMode.register dst ext h g,
            reg-modrm RegisterMode.register dst ext h g,
            rm-modrm RegisterMode.register dst ext h g,
            sext8-is_8_bit imm e,
          )
          refl,
    )
    | inr e ↦ (
      _,
      _,
      long_eq e,
      emits 4 0x81,
      rw
          (
            mode-modrm RegisterMode.register dst ext h g,
            reg-modrm RegisterMode.register dst ext h g,
            rm-modrm RegisterMode.register dst ext h g,
            little_endian-bytes 4 imm i,
          )
          refl,
    )
  ]

  -- For register numbers below 8 and a 32-bit immediate, a move into a 32-bit register is emitted
  -- as one instruction, in which the processor reads the register and the immediate given.
  pub instr_imm-move :
      IsU32 imm
      → Reads 0xC6 ext dst imm a (instr_imm op_mov_i ext InstrMode.ir RegisterSize.reg32 dst imm a)
  unfolding Reads register_immediate m instr_imm write_immediate write_wide write_imm_opcode
      write_prefix encode_imm_opcode is_fast_imm_instr is_imm8_only_instr
  instr_imm-move i = (
    _,
    _,
    refl,
    emits 4 0xC7,
    rw
        (
          mode-modrm RegisterMode.register dst ext h g,
          reg-modrm RegisterMode.register dst ext h g,
          rm-modrm RegisterMode.register dst ext h g,
          little_endian-bytes 4 imm i,
        )
        refl,
  )

  -- For register numbers below 8, a shift of a 32-bit register is emitted as one instruction, in
  -- which the processor reads the register, the extension and the lowest byte of the immediate
  -- given.
  pub instr_imm-shift :
      Reads 0xC0 ext dst
        (u8 imm)
        a
        (instr_imm op_sal_i ext InstrMode.ir RegisterSize.reg32 dst imm a)
  unfolding Reads register_immediate m instr_imm write_immediate write_imm_opcode write_prefix
      encode_imm_opcode is_fast_imm_instr is_imm8_only_instr
  instr_imm-shift = (
    _,
    _,
    refl,
    emits 1 0xC1,
    rw
        (
          mode-modrm RegisterMode.register dst ext h g,
          reg-modrm RegisterMode.register dst ext h g,
          rm-modrm RegisterMode.register dst ext h g,
        )
        refl,
  )
