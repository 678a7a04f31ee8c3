-- ===== src/Emulation/Compiler/Refinement/Compare.antt =====
-- Comparisons of src/emulation/compiler.cpp: `compile_compare`.
use ji_tboy.Base.{
  ℕ, ◌≡◌, ◌≢◌, ◌<◌, refl, arith, Bool, [], ◌∷◌, some, if◌then◌else◌, IsU32, sext16, length,
}
use ji_tboy.Mips.Isa.{Register, InstructionR, InstructionI}
use ji_tboy.Mips.RegisterFile.{read, write, assign}
use ji_tboy.Mips.RegisterFile.Laws.{read-lt, assign-assign, read-assign_self}
use ji_tboy.X86.Isa.{CondCode, RegisterSize, op_set_cc, op_cmp, op_cmp_i, ext_cmp_i}
use ji_tboy.X86.Assembler.{InstrMode, encode_opcode}
use ji_tboy.X86.Assembler.Instr.{cond_op}
use ji_tboy.X86.Processor.{Machine, Flags, reg, alu, alu_imm, mov, mov_imm, set_cc, compared, holds}
use ji_tboy.X86.Processor.Decoder.{decode}
use ji_tboy.X86.Processor.Conditions.{IsForm0f}
use ji_tboy.Emulation.Compiler.{◌⨟◌}
use ji_tboy.Emulation.Compiler.Registers.{compile_reg_load, compile_reg_read, load, store_imm}
use ji_tboy.Emulation.Compiler.Arithmetic.{compile_compare, compile_compare_i, emit_set_cond}
use ji_tboy.Emulation.Compiler.Codes.{⨟-Codes, guest}
use ji_tboy.Emulation.Compiler.Accesses.{
  load-Codes, reg_load-Codes, reg_read-Codes, store_imm-Codes, set_cond-Codes,
}
use ji_tboy.Emulation.Compiler.Views.{View, IsBase, Runs, Runs-nil, Runs-cons, at_guest, at_eax}
use ji_tboy.Emulation.Compiler.Moves.{mov-Does, mov_imm-Does, cmp-Does, cmp_imm-Does, set_cc-Does}
use ji_tboy.Emulation.Compiler.Translates.{Effects, Translates, unless_zero}
use ji_tboy.Emulation.Compiler.Refinement.Alu.{AreRegs}

abbrev pub bit : Bool → ℕ
bit t = if t then 1 else 0

module _ (cond : CondCode) (cc : ℕ) (f : ℕ → ℕ → Bool)
    (form : IsForm0f
      (encode_opcode (cond_op op_set_cc cond) InstrMode.rm RegisterSize.reg8)
      (λ o r. set_cc cc o))
    (means : (a b : ℕ) → IsU32 a → IsU32 b → holds cc (compared a b) ≡ some (f a b)) where
  -- The code behind the comparison of `a` with `k`
  set_bit :
      (rd : Register) (a k : ℕ)
      → rd < 32
      → IsU32 a
      → IsU32 k
      → (other : Machine → Flags) (base : ℕ) (b : IsBase base) (v : View)
      → v.flags ≡ some (compared a k)
      → length v.file.regs ≡ 34
      → (w : View) × Runs other base b v (mov_imm (guest rd) 0 ∷ set_cc cc (guest rd) ∷ []) w
        × (w.file ≡ assign v.file rd (bit (f a k)))
        × (w.stack ≡ v.stack)
  set_bit rd a k h u l other base b v e size = (
    _,
    Runs-cons other base b v _ _ _ _ (mov_imm-Does other base b v (at_guest rd) 0 (omega arith)) (
        Runs-cons other base b _ _ _ _ _
          (set_cc-Does other base b _ cc (at_guest rd) (compared a k) (f a k) (omega arith) e
            (means a k u l) (read-assign_self v.file rd 0 size (omega arith)))
          (Runs-nil other base b _)),
    assign-assign v.file rd 0 (bit (f a k)),
    refl,
  )

  compared_regs :
      (x : InstructionR) (r : AreRegs x)
      → x.rd ≢ 0
      → Translates
          (load 0 x.rs
            ⨟ compile_reg_load op_cmp 0 x.rt
            ⨟ store_imm x.rd 0
            ⨟ emit_set_cond cond x.rd)
          (λ g. assign g x.rd (bit (f (read g x.rs) (read g x.rt))))
  unfolding Translates Effects decode encode_opcode
  compared_regs x r ne = (
    mov (reg 0) (guest x.rs)
        ∷ alu 7 (reg 0) (guest x.rt)
        ∷ mov_imm (guest x.rd) 0
        ∷ set_cc cc (guest x.rd)
        ∷ [],
    ⨟-Codes _ _ _ _ (load-Codes 0 x.rs (omega arith)) (
        ⨟-Codes _ _ _ _
          (reg_load-Codes (λ o d. alu 7 (reg d) o) op_cmp 0 x.rt (λ bs. refl) (omega arith))
          (⨟-Codes _ _ _ _ (store_imm-Codes x.rd 0 (omega arith) ne)
            (set_cond-Codes (λ o q. set_cc cc o) cond x.rd form))),
    λ other base b v k.
        let (w, runs, file, stack) =
          set_bit x.rd (read v.file x.rs) (read v.file x.rt) r.rd_fits (read-lt v.file k x.rs)
            (read-lt v.file k x.rt) other base b
            (record v {
              eax = read v.file x.rs;
              flags = some (compared (read v.file x.rs) (read v.file x.rt));
            })
            refl k.size in
        (
          w,
          Runs-cons other base b v _ _ _ _
              (mov-Does other base b v at_eax (at_guest x.rs) tt (omega (arith, r.rs_fits)))
              (Runs-cons other base b _ _ _ _ _
                (cmp-Does other base b _ at_eax (at_guest x.rt) tt (omega (arith, r.rt_fits)))
                runs),
          file,
          stack,
        ),
  )

  pub compile_compare-Translates :
      (x : InstructionR) (r : AreRegs x)
      → Translates
          (compile_compare cond x)
          (λ g. write g x.rd (bit (f (read g x.rs) (read g x.rt))))
  unfolding compile_compare
  compile_compare-Translates x r = unless_zero x.rd _ _ (compared_regs x r)

  compared_imm :
      (x : InstructionI)
      → x.rt < 32
      → x.rs < 32
      → IsU32 (sext16 x.constant)
      → x.rt ≢ 0
      → Translates
          (compile_reg_read op_cmp_i ext_cmp_i x.rs (sext16 x.constant)
            ⨟ store_imm x.rt 0
            ⨟ emit_set_cond cond x.rt)
          (λ g. assign g x.rt (bit (f (read g x.rs) (sext16 x.constant))))
  unfolding Translates Effects
  compared_imm x h g u ne = (
    alu_imm 7 (guest x.rs) (sext16 x.constant)
        ∷ mov_imm (guest x.rt) 0
        ∷ set_cc cc (guest x.rt)
        ∷ [],
    ⨟-Codes _ _ _ _ (reg_read-Codes 7 x.rs (sext16 x.constant) (omega arith) u) (
        ⨟-Codes _ _ _ _ (store_imm-Codes x.rt 0 (omega arith) ne)
          (set_cond-Codes (λ o q. set_cc cc o) cond x.rt form)),
    λ other base b v k.
        let (w, runs, file, stack) =
          set_bit x.rt (read v.file x.rs) (sext16 x.constant) h (read-lt v.file k x.rs) u other base
            b (record v { flags = some (compared (read v.file x.rs) (sext16 x.constant)) }) refl
            k.size in
        (
          w,
          Runs-cons other base b v _ _ _ _
              (cmp_imm-Does other base b v (at_guest x.rs) (sext16 x.constant) (omega arith)) runs,
          file,
          stack,
        ),
  )

  pub compile_compare_i-Translates :
      (x : InstructionI)
      → x.rt < 32
      → x.rs < 32
      → IsU32 (sext16 x.constant)
      → Translates
          (compile_compare_i cond x)
          (λ g. write g x.rt (bit (f (read g x.rs) (sext16 x.constant))))
  unfolding compile_compare_i
  compile_compare_i-Translates x h g u = unless_zero x.rt _ _ (compared_imm x h g u)
