-- ===== src/Emulation/Compiler/Refinement/Shift.antt =====
-- Shifts by registers of src/emulation/compiler.cpp: `compile_shift`.
use ji_tboy.Base.{
  ℕ, ◌≡◌, ◌≢◌, ◌<◌, refl, sym, ◌∙◌, ap, ap₂, arith, ◌==◌, Bool-cases, inl, inr, List, [], ◌∷◌, some,
  none, if◌then◌else◌, u8, bit_and, length, length-set,
}
use ji_tboy.Mips.Isa.{InstructionR, Register}
use ji_tboy.Mips.RegisterFile.{RegisterFile, read, assign}
use ji_tboy.Mips.RegisterFile.Laws.{read-assign_self, read-assign_ne, assign-assign}
use ji_tboy.X86.Isa.{Opcode, OpcodeExt, RegisterSize, op_mov, op_and_i, ext_and_i}
use ji_tboy.X86.Assembler.{InstrMode, encode_opcode}
use ji_tboy.X86.Processor.{
  Machine, Flags, Instr, reg, mem, alu_imm, mov, shift_cl, shift_value, alu_value, alu_step, run,
  step, get, put, update, reflag, and_then, map_some,
}
use ji_tboy.X86.Processor.Decoder.{decode}
use ji_tboy.X86.Processor.Instructions.{IsForm}
use ji_tboy.Emulation.Compiler.{skip, ◌⨟◌}
use ji_tboy.Emulation.Compiler.Registers.{
  calc_reg_offset, emit_instr, emit_imm, emit_ext_offset, load, store,
}
use ji_tboy.Emulation.Compiler.Arithmetic.{compile_shift}
use ji_tboy.Emulation.Compiler.Codes.{Codes, ⨟-Codes, skip-Codes, guest}
use ji_tboy.Emulation.Compiler.Accesses.{
  load-Codes, store-Codes, emit_instr-Codes, alu_imm-Codes, emit_ext_offset-Codes,
}
use ji_tboy.Emulation.Compiler.Views.{
  View, Shows, AreFlags, IsBase, Runs, Runs-cons, at_guest, at_eax, get-guest, put-cell,
}
use ji_tboy.Emulation.Compiler.Moves.{mov-Does}
use ji_tboy.Emulation.Compiler.Translates.{Effects, Translates}
use ji_tboy.Emulation.Compiler.Refinement.Alu.{AreRegs}

-- ECX gives way to the count while EAX holds the address.
abbrev shifting : ℕ → Register → Register → List Instr
shifting n rd rs =
    mov (reg 0) (reg 1)
    ∷ mov (reg 1) (guest rs)
    ∷ alu_imm 4 (reg 1) 0b11111
    ∷ shift_cl n (mem 0 (calc_reg_offset rd))
    ∷ mov (reg 1) (reg 0)
    ∷ []

module _ (n : ℕ) (f : ℕ → ℕ → ℕ)
    (shifts : (a c : ℕ) → shift_value n a (u8 (bit_and c 0b11111)) ≡ some (f a (bit_and c 0b11111)))
    (other : Machine → Flags) (base : ℕ) (b : IsBase base) where
  -- The machine before the shift, and the one behind the code with the shifted value
  before : Register → Machine → Machine
  before rs m =
      let m₁ = put (reg 0) (m.regs 1) m in
      let m₂ = put (reg 1) (get (guest rs) m₁) m₁ in
      reflag other (put (reg 1) (bit_and (m₂.regs 1) 0b11111) m₂)

  shifted : Register → Register → ℕ → Machine → Machine
  unfolding before
  shifted rd rs x m = reflag other (put (mem 0 (calc_reg_offset rd)) x (before rs m))

  behind : Register → Register → ℕ → Machine → Machine
  unfolding shifted
  behind rd rs x m = let m₄ = shifted rd rs x m in put (reg 1) (m₄.regs 0) m₄

  run-shifting :
      (rd rs : Register) (m : Machine)
      → run other (shifting n rd rs) m
        ≡ some (behind rd rs (f (get (guest rd) m) (bit_and (get (guest rs) m) 0b11111)) m)
  unfolding run step alu_step alu_value get put update behind
  run-shifting rd rs m =
      ap
        (λ o.
          and_then (map_some (λ x. shifted rd rs x m) o) (λ m₄. some (put (reg 1) (m₄.regs 0) m₄)))
        (shifts (get (guest rd) m) (get (guest rs) m))

  behind-Shows :
      (v : View) (rd rs : Register) (m : Machine) (x : ℕ)
      → rd < 32
      → Shows base v m
      → Shows base
          (record v { file = assign v.file rd x; eax = base; flags = none })
          (behind rd rs x m)
  unfolding behind get put update assign AreFlags
  behind-Shows v rd rs m x h s = record {
    size = length-set v.file.regs rd x ∙ s.size;
    in_ecx = s.in_ecx;
    cells = λ q g. put-cell other base b v m rd q x s (omega arith) g;
    in_eax = s.in_ecx;
    in_edx = s.in_edx;
    on_stack = s.on_stack;
    known_flags = tt;
  }

  shifting-Runs :
      (v : View) (rd rs : Register)
      → rd < 32
      → rs < 32
      → Runs other base b v (shifting n rd rs) (record v {
        file = assign v.file rd (f (read v.file rd) (bit_and (read v.file rs) 0b11111));
        eax = base;
        flags = none;
      })
  unfolding Runs
  shifting-Runs v rd rs h g m s = (
    behind rd rs (f (read v.file rd) (bit_and (read v.file rs) 0b11111)) m,
    run-shifting rd rs m
        ∙ ap₂ (λ a c. some (behind rd rs (f a (bit_and c 0b11111)) m))
            (get-guest other base b v m rd s (omega arith))
            (get-guest other base b v m rs s (omega arith)),
    behind-Shows v rd rs m _ h s,
  )

-- The register that the count is read from: where it is also the destination, the value to shift has
-- overwritten it.
abbrev pub count_reg : InstructionR → Register
count_reg x = if x.rs == x.rd then x.rt else x.rs

module _ (op : Opcode) (ext : OpcodeExt) (f : ℕ → ℕ → ℕ) (e : ext < 8)
    (form : IsForm (encode_opcode op InstrMode.rm RegisterSize.reg32) (λ o r. shift_cl r o))
    (shifts : (a c : ℕ)
      → shift_value ext a (u8 (bit_and c 0b11111)) ≡ some (f a (bit_and c 0b11111)))
    (x : InstructionR) (r : AreRegs x) (ne : x.rd ≢ 0) where
  shifting-Codes : Codes (shifting ext x.rd x.rs) (
      emit_instr op_mov 0 1
      ⨟ load 1 x.rs
      ⨟ emit_imm op_and_i ext_and_i 1 0b11111
      ⨟ emit_ext_offset op ext 0 (calc_reg_offset x.rd)
      ⨟ emit_instr op_mov 1 0)
  unfolding decode encode_opcode
  shifting-Codes =
      ⨟-Codes _ _ _ _
        (emit_instr-Codes (λ o q. mov o (reg q)) op_mov 0 1 (λ bs. refl) (omega arith)
          (omega arith))
        (⨟-Codes _ _ _ _ (load-Codes 1 x.rs (omega arith)) (
          ⨟-Codes _ _ _ _ (alu_imm-Codes 4 1 0b11111 (omega arith) (omega arith) (omega arith)) (
            ⨟-Codes _ _ _ _
              (emit_ext_offset-Codes (λ o q. shift_cl q o) op ext 0 x.rd form (omega arith) e)
              (emit_instr-Codes (λ o q. mov o (reg q)) op_mov 1 0 (λ bs. refl) (omega arith)
                (omega arith)))))

  abbrev shifted_file : RegisterFile → RegisterFile
  shifted_file g = assign g x.rd (f (read g x.rt) (bit_and (read g (count_reg x)) 0b11111))

  -- Where the destination is also the register to shift
  same_count : (g : RegisterFile) → x.rt ≡ x.rd → read g x.rs ≡ read g (count_reg x)
  same_count g e = elim (Bool-cases (x.rs == x.rd)) [
    | inl t ↦ rw t (ap (read g) {x = x.rs} {y = x.rt} (ground (arith, t, e)))
    | inr t ↦ rw t refl
  ]

  in_place :
      x.rt ≡ x.rd
      → Translates
          (skip
            ⨟ (emit_instr op_mov 0 1
                ⨟ load 1 x.rs
                ⨟ emit_imm op_and_i ext_and_i 1 0b11111
                ⨟ emit_ext_offset op ext 0 (calc_reg_offset x.rd)
                ⨟ emit_instr op_mov 1 0))
          shifted_file
  unfolding Translates Effects
  in_place t = (
    shifting ext x.rd x.rs,
    ⨟-Codes [] _ _ _ skip-Codes shifting-Codes,
    λ other base b v h. (
      _,
      shifting-Runs ext f shifts other base b v x.rd x.rs r.rd_fits r.rs_fits,
      ap₂ (λ a c. assign v.file x.rd (f a (bit_and c 0b11111))) (ap (read v.file) (sym t))
          (same_count v.file t),
      refl,
    ),
  )

  moved : RegisterFile → RegisterFile
  moved g = assign g x.rd (read g x.rt)

  moved_count : (g : RegisterFile) → length g.regs ≡ 34 → read (moved g) x.rs ≡ read g (count_reg x)
  unfolding moved
  moved_count g size = elim (Bool-cases (x.rs == x.rd)) [
    | inl t ↦ rw t (
        ap (read (assign g x.rd (read g x.rt))) {x = x.rs} {y = x.rd} (ground (arith, t))
        ∙ read-assign_self g x.rd (read g x.rt) size (omega (arith, r.rd_fits)))
    | inr t ↦ rw t (read-assign_ne g x.rd x.rs (read g x.rt) (ground (arith, t)))
  ]

  moved_first :
      Translates
        ((load 0 x.rt ⨟ store x.rd 0)
          ⨟ (emit_instr op_mov 0 1
              ⨟ load 1 x.rs
              ⨟ emit_imm op_and_i ext_and_i 1 0b11111
              ⨟ emit_ext_offset op ext 0 (calc_reg_offset x.rd)
              ⨟ emit_instr op_mov 1 0))
        shifted_file
  unfolding Translates Effects moved
  moved_first = (
    mov (reg 0) (guest x.rt) ∷ mov (guest x.rd) (reg 0) ∷ shifting ext x.rd x.rs,
    ⨟-Codes (mov (reg 0) (guest x.rt) ∷ mov (guest x.rd) (reg 0) ∷ []) _ _ _
        (⨟-Codes _ _ _ _ (load-Codes 0 x.rt (omega arith)) (store-Codes x.rd 0 (omega arith) ne))
        shifting-Codes,
    λ other base b v h.
        let g = v.file in
        let g' = moved g in
        (
          _,
          Runs-cons other base b v _ _ _ _
              (mov-Does other base b v at_eax (at_guest x.rt) tt (omega (arith, r.rt_fits)))
              (Runs-cons other base b _ _ _ _ _
                (mov-Does other base b _ (at_guest x.rd) at_eax (omega (arith, r.rd_fits)) tt)
                (shifting-Runs ext f shifts other base b _ x.rd x.rs r.rd_fits r.rs_fits)),
          assign-assign g x.rd (read g x.rt) (f (read g' x.rd) (bit_and (read g' x.rs) 0b11111))
              ∙ ap₂ (λ a c. assign g x.rd (f a (bit_and c 0b11111)))
                  (read-assign_self g x.rd (read g x.rt) h.size (omega (arith, r.rd_fits)))
                  (moved_count g h.size),
          refl,
        ),
  )

  pub compile_shift-Translates : Translates (compile_shift op ext x) shifted_file
  unfolding compile_shift
  compile_shift-Translates = elim (Bool-cases (x.rt == x.rd)) [
    | inl t ↦ rw t (in_place (ground (arith, t)))
    | inr t ↦ rw t moved_first
  ]
