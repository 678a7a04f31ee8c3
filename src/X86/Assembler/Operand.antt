-- ===== src/X86/Assembler/Operand.antt =====
-- The ModRM bytes, displacements and immediates that src/x86/assembler.cpp and assembler.hpp emit.
use ji_tboy.Base.{
  ℕ, ◌+◌, ◌*◌, ◌≡◌, ◌≢◌, ◌<◌, refl, ◌∙◌, ap, arith, true, Bool-cases, inl, inr, ◌==◌, List, [], ◌∷◌,
  ◌++◌, some, bit_or, u8, IsU32, sext8, ◌<<<◌, ==-ne,
}
use mathlib.Core.List.{append_assoc}
use ji_tboy.Bits.Field.{bit_or_high}
use ji_tboy.VectorBuffer.{bytes, write as write_bytes}
use ji_tboy.X86.Isa.{RegisterMode, mode_code, Register}
use ji_tboy.X86.Assembler.{Assembler, write, is_8_bit, encode_regs, encode_regs_offset}
use ji_tboy.X86.Assembler.Emission.{little_endian-bytes}
use ji_tboy.X86.Decode.{displacement, modrm_mode, modrm_reg, modrm_rm}

abbrev pub modrm : RegisterMode → Register → Register → ℕ
modrm mode dst src = u8 (bit_or (bit_or (mode_code mode) (src <<< 3)) dst)

abbrev pub mode_field : RegisterMode → ℕ
mode_field RegisterMode.memory_disp0 = 0
mode_field RegisterMode.memory_disp1 = 1
mode_field RegisterMode.memory_disp4 = 2
mode_field RegisterMode.register = 3

mode_field-lem : (mode : RegisterMode) → mode_code mode ≡ mode_field mode * 64
mode_field-lem RegisterMode.memory_disp0 = refl
mode_field-lem RegisterMode.memory_disp1 = refl
mode_field-lem RegisterMode.memory_disp4 = refl
mode_field-lem RegisterMode.register = refl

mode_field-lt : (mode : RegisterMode) → mode_field mode < 4
mode_field-lt RegisterMode.memory_disp0 = omega arith
mode_field-lt RegisterMode.memory_disp1 = omega arith
mode_field-lt RegisterMode.memory_disp4 = omega arith
mode_field-lt RegisterMode.register = omega arith

modrm-sum :
    (mode : RegisterMode) (dst src : Register)
    → dst < 8
    → src < 8
    → modrm mode dst src ≡ mode_field mode * 64 + src * 8 + dst
modrm-sum mode dst src h g =
    let k = mode_field-lt mode in
    ap u8 (
      ap (λ m. bit_or (bit_or m (src * 8)) dst) (mode_field-lem mode)
      ∙ ap (λ m. bit_or m dst)
          (bit_or_high 6 (mode_field mode) (src * 8) (omega arith) ∙ omega arith)
      ∙ bit_or_high 3 (mode_field mode * 8 + src) dst h)
    ∙ omega arith

module _ (mode : RegisterMode) (dst src : Register) (h : dst < 8) (g : src < 8) where
  pub mode-modrm : modrm_mode (modrm mode dst src) ≡ mode_field mode
  mode-modrm = ap modrm_mode (modrm-sum mode dst src h g) ∙ omega arith

  pub reg-modrm : modrm_reg (modrm mode dst src) ≡ src
  reg-modrm = ap modrm_reg (modrm-sum mode dst src h g) ∙ omega arith

  pub rm-modrm : modrm_rm (modrm mode dst src) ≡ dst
  rm-modrm = ap modrm_rm (modrm-sum mode dst src h g) ∙ omega arith

pub sext8-is_8_bit : (v : ℕ) → is_8_bit v ≡ true → sext8 (u8 v) ≡ v
unfolding is_8_bit
sext8-is_8_bit v h = ground arith

-- For register numbers below 8, a base other than `ESP` and `EBP` and a 32-bit displacement, the
-- bytes appended for a memory operand are those from which the processor reads the register, the
-- base and the displacement.
pub encode_regs_offset-displacement :
    (dst src : Register) (addr_offset : ℕ) (a : Assembler)
    → dst < 8
    → src < 8
    → dst ≢ 4
    → dst ≢ 5
    → IsU32 addr_offset
    → (code : List ℕ) × ((encode_regs_offset dst src addr_offset a).buffer.buffer
        ≡ a.buffer.buffer ++ code)
      × (displacement code ≡ some (src, dst, addr_offset))
unfolding encode_regs_offset encode_regs displacement write write_bytes
encode_regs_offset-displacement dst src addr_offset a h g n m o =
    elim (Bool-cases (addr_offset == 0)) [
      | inl z ↦ (
        modrm RegisterMode.memory_disp0 dst src ∷ [],
        rw z refl,
        rw
            (
              mode-modrm RegisterMode.memory_disp0 dst src h g,
              reg-modrm RegisterMode.memory_disp0 dst src h g,
              rm-modrm RegisterMode.memory_disp0 dst src h g,
              ==-ne dst 4 n,
              ==-ne dst 5 m,
            )
            (ap (λ v. some (src, dst, v)) (ground (arith, z))),
      )
      | inr z ↦ elim (Bool-cases (is_8_bit addr_offset)) [
        | inl e ↦ (
          modrm RegisterMode.memory_disp1 dst src ∷ bytes 1 addr_offset,
          rw (z, e)
              (append_assoc a.buffer.buffer (modrm RegisterMode.memory_disp1 dst src ∷ [])
                (bytes 1 addr_offset)),
          rw
              (
                mode-modrm RegisterMode.memory_disp1 dst src h g,
                reg-modrm RegisterMode.memory_disp1 dst src h g,
                rm-modrm RegisterMode.memory_disp1 dst src h g,
                ==-ne dst 4 n,
                sext8-is_8_bit addr_offset e,
              )
              refl,
        )
        | inr e ↦ (
          modrm RegisterMode.memory_disp4 dst src ∷ bytes 4 addr_offset,
          rw (z, e)
              (append_assoc a.buffer.buffer (modrm RegisterMode.memory_disp4 dst src ∷ [])
                (bytes 4 addr_offset)),
          rw
              (
                mode-modrm RegisterMode.memory_disp4 dst src h g,
                reg-modrm RegisterMode.memory_disp4 dst src h g,
                rm-modrm RegisterMode.memory_disp4 dst src h g,
                ==-ne dst 4 n,
                little_endian-bytes 4 addr_offset o,
              )
              refl,
        )
      ]
    ]
