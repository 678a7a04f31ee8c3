-- ===== src/Emulation/Compiler/Refinement/Immediate.antt =====
-- Immediate arithmetic and shifts by constants of src/emulation/compiler.cpp: `compile_imm`.
use ji_tboy.Base.{
  ℕ, ◌≡◌, ◌≢◌, ◌<◌, refl, ap, arith, ◌==◌, Bool-cases, inl, inr, [], ◌∷◌, none, some, IsU32, u8,
}
use ji_tboy.Mips.Isa.{Register}
use ji_tboy.Mips.RegisterFile.{read, write, assign}
use ji_tboy.X86.Isa.{Opcode, OpcodeExt, op_add_i, op_sal_i}
use ji_tboy.X86.Processor.{
  Machine, Flags, Instr, Operand, reg, alu_imm, shift_imm, mov, alu_value, shift_value,
}
use ji_tboy.Emulation.Compiler.{◌⨟◌}
use ji_tboy.Emulation.Compiler.Registers.{compile_reg_write_imm, emit_imm, load, store}
use ji_tboy.Emulation.Compiler.Arithmetic.{compile_imm}
use ji_tboy.Emulation.Compiler.Codes.{Codes, ⨟-Codes, guest}
use ji_tboy.Emulation.Compiler.Accesses.{
  load-Codes, store-Codes, alu_mem-Codes, alu_imm-Codes, shift_mem-Codes, shift_imm-Codes,
}
use ji_tboy.Emulation.Compiler.Views.{
  View, IsBase, Does, Runs-nil, Runs-cons, Place, IsPlace, at_guest, at_eax, operand_of, value,
  assign_at,
}
use ji_tboy.Emulation.Compiler.Moves.{mov-Does, alu_imm-Does, shift_imm-Does}
use ji_tboy.Emulation.Compiler.Translates.{Effects, Translates, unless_zero}

-- `i` is an instruction on one operand that puts `f` of its value in its place.
abbrev IsUnary : (Operand → Instr) → (ℕ → ℕ) → Type 0
IsUnary i f =
    (other : Machine → Flags) (base : ℕ) (b : IsBase base) (v : View) (p : Place)
    → IsPlace p
    → Does other base b v (i (operand_of p))
        (record (assign_at p (f (value p v)) v) { flags = none })

module _ (op : Opcode) (ext : OpcodeExt) (imm : ℕ) (i : Operand → Instr) (f : ℕ → ℕ)
    (unary : IsUnary i f)
    (in_mem : (r : Register)
      → r ≢ 0
      → Codes (i (guest r) ∷ []) (compile_reg_write_imm op ext r imm))
    (in_reg : Codes (i (reg 0) ∷ []) (emit_imm op ext 0 imm)) (dst src : Register) (h : dst < 32)
    (g : src < 32) where
  in_place :
      dst ≢ 0
      → dst ≡ src
      → Translates (compile_reg_write_imm op ext dst imm) (λ q. assign q dst (f (read q src)))
  unfolding Translates Effects
  in_place ne e = (
    _,
    in_mem dst ne,
    λ other base b v k. (
      _,
      Runs-cons other base b v _ _ _ _ (unary other base b v (at_guest dst) (omega arith))
          (Runs-nil other base b _),
      ap (λ r. assign v.file dst (f (read v.file r))) e,
      refl,
    ),
  )

  through_eax :
      dst ≢ 0
      → Translates
          (load 0 src ⨟ emit_imm op ext 0 imm ⨟ store dst 0)
          (λ q. assign q dst (f (read q src)))
  unfolding Translates Effects
  through_eax ne = (
    mov (reg 0) (guest src) ∷ i (reg 0) ∷ mov (guest dst) (reg 0) ∷ [],
    ⨟-Codes _ _ _ _ (load-Codes 0 src (omega arith))
        (⨟-Codes _ _ _ _ in_reg (store-Codes dst 0 (omega arith) ne)),
    λ other base b v k. (
      _,
      Runs-cons other base b v _ _ _ _
          (mov-Does other base b v at_eax (at_guest src) tt (omega arith))
          (Runs-cons other base b _ _ _ _ _ (unary other base b _ at_eax tt) (
            Runs-cons other base b _ _ _ _ _
              (mov-Does other base b _ (at_guest dst) at_eax (omega arith) tt)
              (Runs-nil other base b _))),
      refl,
      refl,
    ),
  )

  imm-Translates : Translates (compile_imm op ext dst src imm) (λ q. write q dst (f (read q src)))
  unfolding compile_imm
  imm-Translates = unless_zero dst _ _ (λ ne. elim (Bool-cases (dst == src)) [
    | inl e ↦ rw e (in_place ne (ground (arith, e)))
    | inr e ↦ rw e (through_eax ne)
  ])

-- An instruction of the group of ADD, on a 32-bit immediate
pub compile_imm-alu :
    (ext : OpcodeExt) (imm : ℕ) (f : ℕ → ℕ) (dst src : Register)
    → ext < 7
    → IsU32 imm
    → ((a : ℕ) → alu_value ext a imm ≡ some (f a))
    → dst < 32
    → src < 32
    → Translates (compile_imm op_add_i ext dst src imm) (λ q. write q dst (f (read q src)))
compile_imm-alu ext imm f dst src e u k h g =
    imm-Translates op_add_i ext imm (λ o. alu_imm ext o imm) f
      (λ other base b v p l. alu_imm-Does other base b v ext p imm _ l (ground arith) (k _))
      (λ r ne. alu_mem-Codes ext r imm (omega arith) u ne)
      (alu_imm-Codes ext 0 imm (omega arith) (omega arith) u) dst src h g

-- A shift by a constant
pub compile_imm-shift :
    (ext : OpcodeExt) (imm : ℕ) (f : ℕ → ℕ) (dst src : Register)
    → ext < 8
    → ((a : ℕ) → shift_value ext a (u8 imm) ≡ some (f a))
    → dst < 32
    → src < 32
    → Translates (compile_imm op_sal_i ext dst src imm) (λ q. write q dst (f (read q src)))
compile_imm-shift ext imm f dst src e k h g =
    imm-Translates op_sal_i ext imm (λ o. shift_imm ext o (u8 imm)) f
      (λ other base b v p l. shift_imm-Does other base b v ext p (u8 imm) _ l (k _))
      (λ r ne. shift_mem-Codes ext r imm e ne) (shift_imm-Codes ext 0 imm (omega arith) e) dst src h
      g
