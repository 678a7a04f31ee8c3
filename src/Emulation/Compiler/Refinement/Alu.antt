-- ===== src/Emulation/Compiler/Refinement/Alu.antt =====
-- Register arithmetic and logic of src/emulation/compiler.cpp: `compile<Op>` and `compile_nor`.
use ji_tboy.Base.{
  ℕ, ◌≡◌, ◌≢◌, ◌<◌, refl, sym, ◌∙◌, ap, arith, false, ◌==◌, Bool-cases, inl, inr, [], ◌∷◌, ◌++◌,
  length, none, not32, bit_or, some,
}
use ji_tboy.Mips.Isa.{InstructionR}
use ji_tboy.Mips.RegisterFile.{RegisterFile, read, write, assign}
use ji_tboy.X86.Isa.{Opcode, RegisterSize, op_or, op_not, ext_not}
use ji_tboy.X86.Assembler.{InstrMode, encode_opcode}
use ji_tboy.X86.Processor.{Machine, Flags, reg, alu, mov, alu_value, group3}
use ji_tboy.X86.Processor.Decoder.{decode}
use ji_tboy.Mips.RegisterFile.Laws.{assign-assign, read-assign_self}
use ji_tboy.X86.Processor.Instructions.{IsForm}
use ji_tboy.Emulation.Compiler.{◌⨟◌}
use ji_tboy.Emulation.Compiler.Registers.{
  compile_reg_load, compile_reg_write, load, store, calc_reg_offset, emit_ext_offset,
}
use ji_tboy.Emulation.Compiler.Arithmetic.{compile_alu, compile_nor}
use ji_tboy.Emulation.Compiler.Codes.{⨟-Codes, guest}
use ji_tboy.Emulation.Compiler.Accesses.{
  load-Codes, reg_load-Codes, reg_write-Codes, store-Codes, emit_ext_offset-Codes,
}
use ji_tboy.Emulation.Compiler.Views.{
  View, IsBase, Runs, Runs-nil, Runs-cons, Runs-append, at_guest, at_eax,
}
use ji_tboy.Emulation.Compiler.Moves.{mov-Does, alu-Does, not-Does}
use ji_tboy.Emulation.Compiler.Translates.{Effects, Translates, unless_zero, write_nonzero}

-- Registers are numbers below 32.
pub record AreRegs (x : InstructionR) : Type 0 where
  pub rd_fits : x.rd < 32
  pub rs_fits : x.rs < 32
  pub rt_fits : x.rt < 32

module _ (op : Opcode) (n : ℕ) (f : ℕ → ℕ → ℕ)
    (from_mem : IsForm (encode_opcode op InstrMode.mr RegisterSize.reg32) (λ o r. alu n (reg r) o))
    (to_mem : IsForm (encode_opcode op InstrMode.rm RegisterSize.reg32) (λ o r. alu n o (reg r)))
    (no_cmp : (n == 7) ≡ false) (computes : (a b : ℕ) → alu_value n a b ≡ some (f a b))
    (x : InstructionR) (r : AreRegs x) where
  abbrev result : RegisterFile → RegisterFile
  result g = assign g x.rd (f (read g x.rs) (read g x.rt))

  in_place : x.rd ≢ 0 → x.rs ≡ x.rd → Translates (load 0 x.rt ⨟ compile_reg_write op x.rd 0) result
  unfolding Translates Effects
  in_place ne e = (
    mov (reg 0) (guest x.rt) ∷ alu n (guest x.rd) (reg 0) ∷ [],
    ⨟-Codes _ _ _ _ (load-Codes 0 x.rt (omega arith))
        (reg_write-Codes (λ o s. alu n o (reg s)) op x.rd 0 to_mem (omega arith) ne),
    λ other base b v h. (
      _,
      Runs-cons other base b v _ _ _ _
          (mov-Does other base b v at_eax (at_guest x.rt) tt (omega (arith, r.rt_fits)))
          (Runs-cons other base b _ _ _ _ _
            (alu-Does other base b _ n (at_guest x.rd) at_eax _ (omega (arith, r.rd_fits)) tt no_cmp
              (computes _ _))
            (Runs-nil other base b _)),
      ap (λ q. assign v.file x.rd (f (read v.file q) (read v.file x.rt))) (sym e),
      refl,
    ),
  )

  through_eax :
      x.rd ≢ 0 → Translates (load 0 x.rs ⨟ compile_reg_load op 0 x.rt ⨟ store x.rd 0) result
  unfolding Translates Effects
  through_eax ne = (
    mov (reg 0) (guest x.rs) ∷ alu n (reg 0) (guest x.rt) ∷ mov (guest x.rd) (reg 0) ∷ [],
    ⨟-Codes _ _ _ _ (load-Codes 0 x.rs (omega arith)) (
        ⨟-Codes _ _ _ _ (reg_load-Codes (λ o d. alu n (reg d) o) op 0 x.rt from_mem (omega arith))
          (store-Codes x.rd 0 (omega arith) ne)),
    λ other base b v h. (
      _,
      Runs-cons other base b v _ _ _ _
          (mov-Does other base b v at_eax (at_guest x.rs) tt (omega (arith, r.rs_fits)))
          (Runs-cons other base b _ _ _ _ _
            (alu-Does other base b _ n at_eax (at_guest x.rt) _ tt (omega (arith, r.rt_fits)) no_cmp
              (computes _ _))
            (Runs-cons other base b _ _ _ _ _
              (mov-Does other base b _ (at_guest x.rd) at_eax (omega (arith, r.rd_fits)) tt)
              (Runs-nil other base b _))),
      refl,
      refl,
    ),
  )

  pub compile_alu-Translates :
      Translates (compile_alu op x) (λ g. write g x.rd (f (read g x.rs) (read g x.rt)))
  unfolding compile_alu
  compile_alu-Translates = unless_zero x.rd _ _ (λ ne. elim (Bool-cases (x.rs == x.rd)) [
    | inl e ↦ rw e (in_place ne (ground (arith, e)))
    | inr e ↦ rw e (through_eax ne)
  ])

-- The code of `nor` behind that of OR
not_in_place :
    (x : InstructionR) (r : AreRegs x) (other : Machine → Flags) (base : ℕ) (b : IsBase base)
    (v : View)
    → Runs other base b v
        (group3 2 (guest x.rd) ∷ [])
        (record v { file = assign v.file x.rd (not32 (read v.file x.rd)); flags = none })
not_in_place x r other base b v =
    Runs-cons other base b v _ _ _ _
      (not-Does other base b v (at_guest x.rd) (omega (arith, r.rd_fits))) (Runs-nil other base b _)

not-assign :
    (g : RegisterFile) (r a : ℕ)
    → length g.regs ≡ 34
    → r < 34
    → assign (assign g r a) r (not32 (read (assign g r a) r)) ≡ assign g r (not32 a)
not-assign g r a size h =
    ap (λ y. assign (assign g r a) r (not32 y)) (read-assign_self g r a size h)
    ∙ assign-assign g r a (not32 a)

nor_nonzero :
    (x : InstructionR) (r : AreRegs x)
    → x.rd ≢ 0
    → Translates
        (compile_alu op_or x ⨟ emit_ext_offset op_not ext_not 1 (calc_reg_offset x.rd))
        (λ g. assign g x.rd (not32 (bit_or (read g x.rs) (read g x.rt))))
unfolding Translates Effects write assign alu_value decode encode_opcode
nor_nonzero x r z =
    let (is, codes, effects) =
      compile_alu-Translates op_or 1 bit_or (λ bs. refl) (λ bs. refl) refl (λ a c. refl) x r in
    (
      is ++ (group3 2 (guest x.rd) ∷ []),
      ⨟-Codes _ _ _ _ codes (
          emit_ext_offset-Codes (λ o e. group3 e o) op_not ext_not 1 x.rd (λ bs. refl) (omega arith)
            (omega arith)),
      λ other base b v h.
          let (w, runs, file, stack) = effects other base b v h in
          (
            _,
            Runs-append other base b v w _ _ _ runs (not_in_place x r other base b w),
            ap (λ f. assign f x.rd (not32 (read f x.rd)))
                  (file
                    ∙ write_nonzero v.file x.rd (bit_or (read v.file x.rs) (read v.file x.rt)) z)
                ∙ not-assign v.file x.rd (bit_or (read v.file x.rs) (read v.file x.rt)) h.size
                    (omega (arith, r.rd_fits)),
            stack,
          ),
    )

pub compile_nor-Translates :
    (x : InstructionR) (r : AreRegs x)
    → Translates (compile_nor x) (λ g. write g x.rd (not32 (bit_or (read g x.rs) (read g x.rt))))
unfolding compile_nor
compile_nor-Translates x r = unless_zero x.rd _ _ (nor_nonzero x r)
