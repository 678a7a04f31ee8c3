-- ===== src/Emulation/Compiler/Refinement/HiLo.antt =====
-- Products, quotients, HI and LO of src/emulation/compiler.cpp: `compile_mul` to `compile_mtlo`.
use ji_tboy.Base.{
  ℕ, ◌*◌, ◌/◌, ◌%◌, ◌^◌, ◌≡◌, ◌≢◌, ◌<◌, refl, ap, arith, false, ◌==◌, ==-ne, List, [], ◌∷◌, some,
  if◌then◌else◌, is_neg32, sar32, IsU32,
}
use ji_tboy.Bits.Bound.{bit_xor_same}
use ji_tboy.Mips.Isa.{InstructionR, Register}
use ji_tboy.Mips.RegisterFile.{RegisterFile, read, write, assign, hi_reg, lo_reg}
use ji_tboy.Mips.RegisterFile.Laws.{read-lt}
use ji_tboy.X86.Isa.{
  op_mov, op_mul, ext_mul, op_imul, ext_imul, op_div, ext_div, op_idiv, ext_idiv, op_xor,
}
use ji_tboy.X86.Assembler.{encode_opcode}
use ji_tboy.X86.Processor.{
  Machine, Flags, Instr, reg, alu, mov, shift_imm, group3, signed_product, shift_value, alu_value,
}
use ji_tboy.X86.Processor.Decoder.{decode}
use ji_tboy.Emulation.Handlers.HiLo.{div32, rem32, bad_division}
use ji_tboy.Emulation.Compiler.{◌⨟◌}
use ji_tboy.Emulation.Compiler.Registers.{load, store}
use ji_tboy.Emulation.Compiler.Arithmetic.{
  compile_hi_lo_writeback, compile_mul, compile_div, compile_divu, compile_mfhi, compile_mflo,
  compile_mthi, compile_mtlo,
}
use ji_tboy.Emulation.Compiler.Codes.{Codes, ⨟-Codes, guest}
use ji_tboy.Emulation.Compiler.Accesses.{
  load-Codes, store-Codes, emit_instr-Codes, shift_imm-Codes, emit_ext_offset-Codes,
}
use ji_tboy.Emulation.Compiler.Views.{
  View, IsBase, Runs, Runs-nil, Runs-cons, at_guest, at_eax, at_edx,
}
use ji_tboy.Emulation.Compiler.Moves.{
  mov-Does, mul-Does, imul-Does, div-Does, idiv-Does, alu-Does, shift_imm-Does,
}
use ji_tboy.Emulation.Compiler.Translates.{
  Effects, EffectsWhen, Translates, TranslatesWhen, unless_zero,
}
use ji_tboy.Emulation.Compiler.Refinement.Alu.{AreRegs}

-- The arithmetic shift by 31 fills a word with the sign.
sign_word : (a : ℕ) → IsU32 a → sar32 a 31 ≡ (if is_neg32 a then 0xffff_ffff else 0)
sign_word a h = ground arith

-- HI and LO take EDX and EAX.
abbrev pub written_back : RegisterFile → ℕ → ℕ → RegisterFile
written_back g high low = assign (assign g hi_reg high) lo_reg low

abbrev writeback : List Instr
writeback = mov (guest hi_reg) (reg 2) ∷ mov (guest lo_reg) (reg 0) ∷ []

writeback-Codes : Codes writeback compile_hi_lo_writeback
unfolding compile_hi_lo_writeback
writeback-Codes =
    ⨟-Codes _ _ _ _ (store-Codes hi_reg 2 (omega arith) (omega arith))
      (store-Codes lo_reg 0 (omega arith) (omega arith))

writeback-Runs :
    (other : Machine → Flags) (base : ℕ) (b : IsBase base) (v : View)
    → Runs other base b v writeback (record v { file = written_back v.file v.edx v.eax })
writeback-Runs other base b v =
    Runs-cons other base b v _ _ _ _
      (mov-Does other base b v (at_guest hi_reg) at_edx (omega arith) tt)
      (Runs-cons other base b _ _ _ _ _
        (mov-Does other base b _ (at_guest lo_reg) at_eax (omega arith) tt)
        (Runs-nil other base b _))

module _ (x : InstructionR) (r : AreRegs x) where
  pub compile_multu-Translates :
      Translates
        (compile_mul op_mul ext_mul x)
        (λ g. let p = read g x.rs * read g x.rt in written_back g (p / 2 ^ 32) (p % 2 ^ 32))
  unfolding Translates Effects compile_mul decode encode_opcode
  compile_multu-Translates = (
    mov (reg 0) (guest x.rs) ∷ group3 4 (guest x.rt) ∷ writeback,
    ⨟-Codes _ _ _ _ (load-Codes 0 x.rs (omega arith)) (
        ⨟-Codes _ _ _ _
          (emit_ext_offset-Codes (λ o e. group3 e o) op_mul ext_mul 1 x.rt (λ bs. refl)
            (omega arith) (omega arith))
          writeback-Codes),
    λ other base b v h. (
      _,
      Runs-cons other base b v _ _ _ _
          (mov-Does other base b v at_eax (at_guest x.rs) tt (omega (arith, r.rs_fits)))
          (Runs-cons other base b _ _ _ _ _
            (mul-Does other base b _ (at_guest x.rt) (omega (arith, r.rt_fits)))
            (writeback-Runs other base b _)),
      refl,
      refl,
    ),
  )

  pub compile_mult-Translates : Translates (compile_mul op_imul ext_imul x) (λ g.
      let p = signed_product (read g x.rs) (read g x.rt) in
      written_back g (p / 2 ^ 32) (p % 2 ^ 32))
  unfolding Translates Effects compile_mul decode encode_opcode
  compile_mult-Translates = (
    mov (reg 0) (guest x.rs) ∷ group3 5 (guest x.rt) ∷ writeback,
    ⨟-Codes _ _ _ _ (load-Codes 0 x.rs (omega arith)) (
        ⨟-Codes _ _ _ _
          (emit_ext_offset-Codes (λ o e. group3 e o) op_imul ext_imul 1 x.rt (λ bs. refl)
            (omega arith) (omega arith))
          writeback-Codes),
    λ other base b v h. (
      _,
      Runs-cons other base b v _ _ _ _
          (mov-Does other base b v at_eax (at_guest x.rs) tt (omega (arith, r.rs_fits)))
          (Runs-cons other base b _ _ _ _ _
            (imul-Does other base b _ (at_guest x.rt) (omega (arith, r.rt_fits)))
            (writeback-Runs other base b _)),
      refl,
      refl,
    ),
  )

  pub compile_divu-Translates :
      TranslatesWhen
        (λ g. (read g x.rt == 0) ≡ false)
        (compile_divu x)
        (λ g. written_back g (read g x.rs % read g x.rt) (read g x.rs / read g x.rt))
  unfolding TranslatesWhen EffectsWhen compile_divu decode encode_opcode alu_value
  compile_divu-Translates = (
    mov (reg 0) (guest x.rs) ∷ alu 6 (reg 2) (reg 2) ∷ group3 6 (guest x.rt) ∷ writeback,
    ⨟-Codes _ _ _ _ (load-Codes 0 x.rs (omega arith)) (
        ⨟-Codes _ _ _ _
          (emit_instr-Codes (λ o q. alu 6 o (reg q)) op_xor 2 2 (λ bs. refl) (omega arith)
            (omega arith))
          (⨟-Codes _ _ _ _
            (emit_ext_offset-Codes (λ o e. group3 e o) op_div ext_div 1 x.rt (λ bs. refl)
              (omega arith) (omega arith))
            writeback-Codes)),
    λ other base b v h q. (
      _,
      Runs-cons other base b v _ _ _ _
          (mov-Does other base b v at_eax (at_guest x.rs) tt (omega (arith, r.rs_fits)))
          (Runs-cons other base b _ _ _ _ _
            (alu-Does other base b _ 6 at_edx at_edx 0 tt tt refl (ap some (bit_xor_same v.edx)))
            (Runs-cons other base b _ _ _ _ _
              (div-Does other base b _ (at_guest x.rt) (read v.file x.rt) (omega (arith, r.rt_fits))
                refl (read-lt v.file h x.rs) refl q)
              (writeback-Runs other base b _))),
      refl,
      refl,
    ),
  )

  pub compile_div-Translates :
      TranslatesWhen
        (λ g. bad_division (read g x.rs) (read g x.rt) ≡ false)
        (compile_div x)
        (λ g.
          written_back g (rem32 (read g x.rs) (read g x.rt)) (div32 (read g x.rs) (read g x.rt)))
  unfolding TranslatesWhen EffectsWhen compile_div decode encode_opcode shift_value
  compile_div-Translates = (
    mov (reg 0) (guest x.rs)
        ∷ mov (reg 2) (reg 0)
        ∷ shift_imm 7 (reg 2) 31
        ∷ group3 7 (guest x.rt)
        ∷ writeback,
    ⨟-Codes _ _ _ _ (load-Codes 0 x.rs (omega arith)) (
        ⨟-Codes _ _ _ _
          (emit_instr-Codes (λ o q. mov o (reg q)) op_mov 2 0 (λ bs. refl) (omega arith)
            (omega arith))
          (⨟-Codes _ _ _ _ (shift_imm-Codes 7 2 31 (omega arith) (omega arith)) (
            ⨟-Codes _ _ _ _
              (emit_ext_offset-Codes (λ o e. group3 e o) op_idiv ext_idiv 1 x.rt (λ bs. refl)
                (omega arith) (omega arith))
              writeback-Codes))),
    λ other base b v h q. (
      _,
      Runs-cons other base b v _ _ _ _
          (mov-Does other base b v at_eax (at_guest x.rs) tt (omega (arith, r.rs_fits)))
          (Runs-cons other base b _ _ _ _ _ (mov-Does other base b _ at_edx at_eax tt tt) (
            Runs-cons other base b _ _ _ _ _
              (shift_imm-Does other base b _ 7 at_edx 31 _ tt
                (ap some (sign_word (read v.file x.rs) (read-lt v.file h x.rs))))
              (Runs-cons other base b _ _ _ _ _
                (idiv-Does other base b _ (at_guest x.rt) (read v.file x.rt)
                  (omega (arith, r.rt_fits)) refl refl q)
                (writeback-Runs other base b _)))),
      refl,
      refl,
    ),
  )

  -- A move between the registers of the file
  moves :
      (dst src : Register)
      → dst ≢ 0
      → dst < 34
      → src < 34
      → Translates (load 0 src ⨟ store dst 0) (λ g. assign g dst (read g src))
  unfolding Translates Effects
  moves dst src ne h g = (
    mov (reg 0) (guest src) ∷ mov (guest dst) (reg 0) ∷ [],
    ⨟-Codes _ _ _ _ (load-Codes 0 src (omega arith)) (store-Codes dst 0 (omega arith) ne),
    λ other base b v k. (
      _,
      Runs-cons other base b v _ _ _ _ (mov-Does other base b v at_eax (at_guest src) tt g) (
          Runs-cons other base b _ _ _ _ _ (mov-Does other base b _ (at_guest dst) at_eax h tt)
            (Runs-nil other base b _)),
      refl,
      refl,
    ),
  )

  pub compile_mfhi-Translates : Translates (compile_mfhi x) (λ g. write g x.rd (read g hi_reg))
  unfolding compile_mfhi
  compile_mfhi-Translates =
      unless_zero x.rd _ _ (λ ne. moves x.rd hi_reg ne (omega (arith, r.rd_fits)) (omega arith))

  pub compile_mflo-Translates : Translates (compile_mflo x) (λ g. write g x.rd (read g lo_reg))
  unfolding compile_mflo
  compile_mflo-Translates =
      unless_zero x.rd _ _ (λ ne. moves x.rd lo_reg ne (omega (arith, r.rd_fits)) (omega arith))

  -- With `$zero` as their source these two do nothing.
  pub compile_mthi-Translates :
      x.rs ≢ 0 → Translates (compile_mthi x) (λ g. assign g hi_reg (read g x.rs))
  unfolding compile_mthi
  compile_mthi-Translates ne =
      rw (==-ne x.rs 0 ne)
        (moves hi_reg x.rs (omega arith) (omega arith) (omega (arith, r.rs_fits)))

  pub compile_mtlo-Translates :
      x.rs ≢ 0 → Translates (compile_mtlo x) (λ g. assign g lo_reg (read g x.rs))
  unfolding compile_mtlo
  compile_mtlo-Translates ne =
      rw (==-ne x.rs 0 ne)
        (moves lo_reg x.rs (omega arith) (omega arith) (omega (arith, r.rs_fits)))
