-- ===== src/X86/Processor/Operands.antt =====
-- The processor reads the operands that src/x86/assembler.hpp emits as they were given.
use ji_tboy.Base.{
  ℕ, ◌≡◌, ◌≢◌, ◌<◌, refl, ◌∙◌, ap, arith, true, Bool-cases, inl, inr, ◌==◌, List, [], ◌∷◌, ◌++◌,
  some, IsU32, ==-ne,
}
use mathlib.Core.List.{append_assoc}
use ji_tboy.VectorBuffer.{bytes, write as write_bytes}
use ji_tboy.X86.Isa.{RegisterMode, Register}
use ji_tboy.X86.Assembler.{Assembler, write, is_8_bit, encode_regs, encode_regs_offset}
use ji_tboy.X86.Assembler.Emission.{little_endian-bytes}
use ji_tboy.X86.Assembler.Operand.{modrm, mode-modrm, reg-modrm, rm-modrm, sext8-is_8_bit}
use ji_tboy.X86.Processor.{Operand, reg, mem}
use ji_tboy.X86.Processor.Decoder.{operand, byte, word}

module _ (dst src : Register) (h : dst < 8) (g : src < 8) where
  pub operand-register :
      (tail : List ℕ)
      → operand (modrm RegisterMode.register dst src ∷ tail) ≡ some (src, reg dst, tail)
  unfolding operand
  operand-register tail =
      rw
        (
          mode-modrm RegisterMode.register dst src h g,
          reg-modrm RegisterMode.register dst src h g,
          rm-modrm RegisterMode.register dst src h g,
        )
        refl

  operand-disp0 :
      dst ≢ 4
      → dst ≢ 5
      → (tail : List ℕ)
      → operand (modrm RegisterMode.memory_disp0 dst src ∷ tail) ≡ some (src, mem dst 0, tail)
  unfolding operand
  operand-disp0 n m tail =
      rw
        (
          mode-modrm RegisterMode.memory_disp0 dst src h g,
          reg-modrm RegisterMode.memory_disp0 dst src h g,
          rm-modrm RegisterMode.memory_disp0 dst src h g,
          ==-ne dst 4 n,
          ==-ne dst 5 m,
        )
        refl

  operand-disp1 :
      (v : ℕ)
      → dst ≢ 4
      → is_8_bit v ≡ true
      → (tail : List ℕ)
      → operand (modrm RegisterMode.memory_disp1 dst src ∷ (bytes 1 v ++ tail))
        ≡ some (src, mem dst v, tail)
  unfolding operand byte
  operand-disp1 v n e tail =
      rw
        (
          mode-modrm RegisterMode.memory_disp1 dst src h g,
          reg-modrm RegisterMode.memory_disp1 dst src h g,
          rm-modrm RegisterMode.memory_disp1 dst src h g,
          ==-ne dst 4 n,
          sext8-is_8_bit v e,
        )
        refl

  operand-disp4 :
      (v : ℕ)
      → dst ≢ 4
      → IsU32 v
      → (tail : List ℕ)
      → operand (modrm RegisterMode.memory_disp4 dst src ∷ (bytes 4 v ++ tail))
        ≡ some (src, mem dst v, tail)
  unfolding operand word
  operand-disp4 v n u tail =
      rw
        (
          mode-modrm RegisterMode.memory_disp4 dst src h g,
          reg-modrm RegisterMode.memory_disp4 dst src h g,
          rm-modrm RegisterMode.memory_disp4 dst src h g,
          ==-ne dst 4 n,
          little_endian-bytes 4 v u,
        )
        refl

-- `code` is what is appended for an operand, from which the processor reads the field `src` and `o`.
pub record EmitsOperand (src : ℕ) (o : Operand) (code : List ℕ) (a a' : Assembler) : Type 0 where
  pub appended : a'.buffer.buffer ≡ a.buffer.buffer ++ code
  pub counted : a'.instr_count ≡ a.instr_count
  pub read : (tail : List ℕ) → operand (code ++ tail) ≡ some (src, o, tail)

pub encode_regs-EmitsOperand :
    (dst src : Register) (a : Assembler)
    → dst < 8
    → src < 8
    → EmitsOperand src
        (reg dst)
        (modrm RegisterMode.register dst src ∷ [])
        a
        (encode_regs RegisterMode.register dst src a)
unfolding encode_regs write write_bytes
encode_regs-EmitsOperand dst src a h g = record {
  appended = refl;
  counted = refl;
  read = operand-register dst src h g;
}

pub encode_regs_offset-EmitsOperand :
    (dst src : Register) (addr_offset : ℕ) (a : Assembler)
    → dst < 8
    → src < 8
    → dst ≢ 4
    → dst ≢ 5
    → IsU32 addr_offset
    → (code : List ℕ) × EmitsOperand src
        (mem dst addr_offset)
        code
        a
        (encode_regs_offset dst src addr_offset a)
unfolding encode_regs_offset encode_regs write write_bytes
encode_regs_offset-EmitsOperand dst src addr_offset a h g n m u =
    elim (Bool-cases (addr_offset == 0)) [
      | inl z ↦ (
        modrm RegisterMode.memory_disp0 dst src ∷ [],
        rw z (record {
          appended = refl;
          counted = refl;
          read = λ tail.
              operand-disp0 dst src h g n m tail
              ∙ ap (λ v. some (src, mem dst v, tail)) (ground (arith, z));
        }),
      )
      | inr z ↦ elim (Bool-cases (is_8_bit addr_offset)) [
        | inl e ↦ (
          modrm RegisterMode.memory_disp1 dst src ∷ bytes 1 addr_offset,
          rw (z, e)
              (record {
                appended = append_assoc a.buffer.buffer _ _;
                counted = refl;
                read = operand-disp1 dst src h g addr_offset n e;
              }),
        )
        | inr e ↦ (
          modrm RegisterMode.memory_disp4 dst src ∷ bytes 4 addr_offset,
          rw (z, e)
              (record {
                appended = append_assoc a.buffer.buffer _ _;
                counted = refl;
                read = operand-disp4 dst src h g addr_offset n u;
              }),
        )
      ]
    ]
