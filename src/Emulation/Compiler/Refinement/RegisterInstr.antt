-- ===== src/Emulation/Compiler/Refinement/RegisterInstr.antt =====
-- Register instructions: the code of src/emulation/compiler.cpp against the handlers of
-- src/emulation/interpreter_core.cpp.
use ji_tboy.Base.{
  ℕ, ◌*◌, ◌/◌, ◌%◌, ◌^◌, ◌≡◌, ◌≢◌, ◌<◌, ◌⊎◌, refl, sym, ◌∙◌, ap, ap₂, arith, false, ◌==◌, ==-ne,
  Bool-cases, inl, inr, some, u8, u32, bit_and, bit_or, bit_xor, add32, sub32, slt32, ltb, sar32,
  ◌<<<◌, ◌>>>◌, Outcome, undefined,
}
use ji_tboy.Bits.Field.{bit_and_mask}
use ji_tboy.Mips.Isa.{OpcodeR, Instruction, InstructionR}
use ji_tboy.Mips.RegisterFile.{RegisterFile, read, write, assign, hi, lo, hi_reg, lo_reg}
use ji_tboy.Mips.RegisterFile.Laws.{read-lt, read-assign_ne, assign_comm}
use ji_tboy.X86.Processor.{shift_value, alu_value}
use ji_tboy.X86.Processor.Decoder.{decode}
use ji_tboy.X86.Processor.Comparison.{holds-less, holds-below}
use ji_tboy.X86.Assembler.{encode_opcode}
use ji_tboy.X86.Isa.{
  CondCode, op_add, op_sub, op_and, op_or, op_xor, op_shl, op_sar, op_shr, ext_shl, ext_sar,
  ext_shr,
}
use ji_tboy.Emulation.State.{EmulatorState, reg, set_reg}
use ji_tboy.Emulation.InterpreterCore.{dispatch_r}
use ji_tboy.Emulation.Handlers.Alu.{
  execute_add, execute_addu, execute_sub, execute_subu, execute_and, execute_or, execute_nor,
  execute_xor, execute_slt, execute_sltu,
}
use ji_tboy.Emulation.Handlers.Shift.{
  execute_sll, execute_sra, execute_srl, execute_sllv, execute_srav, execute_srlv,
}
use ji_tboy.Emulation.Handlers.HiLo.{
  execute_mult, execute_multu, execute_div, execute_divu, execute_mfhi, execute_mflo, execute_mthi,
  execute_mtlo, set_hi, set_lo, bad_division, product64, div32, rem32,
}
use ji_tboy.Emulation.Handlers.HiLo.Results.{product-lt}
use ji_tboy.Emulation.Compiler.{Step, Host}
use ji_tboy.Emulation.Compiler.Arithmetic.{compile_shift_imm}
use ji_tboy.Emulation.Compiler.Dispatch.{compile_r}
use ji_tboy.Emulation.Compiler.Translates.{write_nonzero}
use ji_tboy.Emulation.Compiler.Refinement.Alu.{
  AreRegs, compile_alu-Translates, compile_nor-Translates,
}
use ji_tboy.Emulation.Compiler.Refinement.Immediate.{compile_imm-shift}
use ji_tboy.Emulation.Compiler.Refinement.Compare.{compile_compare-Translates}
use ji_tboy.Emulation.Compiler.Refinement.Shift.{compile_shift-Translates, count_reg}
use ji_tboy.Emulation.Compiler.Refinement.HiLo.{
  compile_mult-Translates, compile_multu-Translates, compile_div-Translates,
  compile_divu-Translates, compile_mfhi-Translates, compile_mflo-Translates,
  compile_mthi-Translates, compile_mtlo-Translates, written_back,
}
use ji_tboy.Emulation.Compiler.Refinement.Refines.{Refines, refine, refine_when}

-- The register instructions that stay among the registers and whose code does what their handlers do:
-- jumps are left out, and those with a register for which it does not.
unfoldable pub IsPlainR : OpcodeR → InstructionR → Type 0
IsPlainR OpcodeR.jr x = ⊥
IsPlainR OpcodeR.jalr x = ⊥
IsPlainR (OpcodeR.unnamed n) x = ⊥
IsPlainR OpcodeR.sll x = AreRegs x × (x.sa < 32)
IsPlainR OpcodeR.sra x = AreRegs x × (x.sa < 32)
IsPlainR OpcodeR.srl x = AreRegs x × (x.sa < 32)
IsPlainR OpcodeR.sllv x = AreRegs x × (x.rd ≢ 0) × ((x.rs ≢ x.rd) ⊎ (x.rt ≡ x.rd))
IsPlainR OpcodeR.srav x = AreRegs x × (x.rd ≢ 0) × ((x.rs ≢ x.rd) ⊎ (x.rt ≡ x.rd))
IsPlainR OpcodeR.srlv x = AreRegs x × (x.rd ≢ 0) × ((x.rs ≢ x.rd) ⊎ (x.rt ≡ x.rd))
IsPlainR OpcodeR.mthi x = AreRegs x × (x.rs ≢ 0)
IsPlainR OpcodeR.mtlo x = AreRegs x × (x.rs ≢ 0)
IsPlainR _ x = AreRegs x

count_lem :
    (x : InstructionR) (f : RegisterFile)
    → (x.rs ≢ x.rd) ⊎ (x.rt ≡ x.rd)
    → read f (count_reg x) ≡ read f x.rs
count_lem x f (inl ne) = rw (==-ne x.rs x.rd ne) refl
count_lem x f (inr e) = elim (Bool-cases (x.rs == x.rd)) [
  | inl t ↦ rw t (ap (read f) {x = x.rt} {y = x.rs} (ground (arith, t, e)))
  | inr t ↦ rw t refl
]

-- The count of a shift by a register is below 32.
count-lt : (c : ℕ) → u8 (bit_and c 0b11111) % 32 ≡ bit_and c 0b11111
count-lt c = rw (bit_and_mask 5 c) (omega arith)

module _ (host : Host) (slot : Instruction → ℕ → Step)
    (slot' : ℕ → EmulatorState → Outcome EmulatorState) (x : InstructionR) (addr : ℕ) where
  abbrev Good : OpcodeR → Type 0
  Good op = Refines (compile_r host slot op x addr) (dispatch_r slot' op x)

  alu-Refines :
      (r : AreRegs x)
      → Good OpcodeR.add
        × Good OpcodeR.addu
        × Good OpcodeR.sub
        × Good OpcodeR.subu
        × Good OpcodeR.and
        × Good OpcodeR.or
        × Good OpcodeR.xor
        × Good OpcodeR.nor
  unfolding compile_r dispatch_r execute_add execute_addu execute_sub execute_subu execute_and
      execute_or execute_xor execute_nor set_reg reg decode encode_opcode alu_value
  alu-Refines r =
      let add =
        compile_alu-Translates op_add 0 add32 (λ bs. refl) (λ bs. refl) refl (λ a b. refl) x r in
      let sub =
        compile_alu-Translates op_sub 5 sub32 (λ bs. refl) (λ bs. refl) refl (λ a b. refl) x r in
      (
        refine _ _ _ add (λ s v. (_, refl, refl)),
        refine _ _ _ add (λ s v. (_, refl, refl)),
        refine _ _ _ sub (λ s v. (_, refl, refl)),
        refine _ _ _ sub (λ s v. (_, refl, refl)),
        refine _ _ _
            (compile_alu-Translates op_and 4 bit_and (λ bs. refl) (λ bs. refl) refl (λ a b. refl) x
              r)
            (λ s v. (_, refl, refl)),
        refine _ _ _
            (compile_alu-Translates op_or 1 bit_or (λ bs. refl) (λ bs. refl) refl (λ a b. refl) x r)
            (λ s v. (_, refl, refl)),
        refine _ _ _
            (compile_alu-Translates op_xor 6 bit_xor (λ bs. refl) (λ bs. refl) refl (λ a b. refl) x
              r)
            (λ s v. (_, refl, refl)),
        refine _ _ _ (compile_nor-Translates x r) (λ s v. (_, refl, refl)),
      )

  compare-Refines : (r : AreRegs x) → Good OpcodeR.slt × Good OpcodeR.sltu
  unfolding compile_r dispatch_r execute_slt execute_sltu set_reg reg decode encode_opcode
  compare-Refines r = (
    refine _ _ _ (compile_compare-Translates CondCode.l 12 slt32 (λ bs. refl) holds-less x r)
        (λ s v. (_, refl, refl)),
    refine _ _ _
        (compile_compare-Translates CondCode.b 2 ltb (λ bs. refl) (λ a b h g. holds-below a b) x r)
        (λ s v. (_, refl, refl)),
  )

  shift_imm-Refines :
      (r : AreRegs x) → x.sa < 32 → Good OpcodeR.sll × Good OpcodeR.sra × Good OpcodeR.srl
  unfolding compile_r dispatch_r execute_sll execute_sra execute_srl set_reg reg compile_shift_imm
      shift_value
  shift_imm-Refines r h =
      let count : u8 x.sa % 32 ≡ x.sa = omega arith in
      let inside : ltb 31 x.sa ≡ false = ground arith in
      (
        refine _ _ _
            (compile_imm-shift 4 x.sa (λ a. u32 (a <<< x.sa)) x.rd x.rt (omega arith)
              (λ a. ap (λ n. some (u32 (a <<< n))) count) r.rd_fits r.rt_fits)
            (λ s v. (_, rw inside refl, refl)),
        refine _ _ _
            (compile_imm-shift 7 x.sa (λ a. sar32 a x.sa) x.rd x.rt (omega arith)
              (λ a. ap (λ n. some (sar32 a n)) count) r.rd_fits r.rt_fits)
            (λ s v. (_, rw inside refl, refl)),
        refine _ _ _
            (compile_imm-shift 5 x.sa (λ a. a >>> x.sa) x.rd x.rt (omega arith)
              (λ a. ap (λ n. some (a >>> n)) count) r.rd_fits r.rt_fits)
            (λ s v. (_, rw inside refl, refl)),
      )

  shift-Refines :
      (r : AreRegs x)
      → x.rd ≢ 0
      → (x.rs ≢ x.rd) ⊎ (x.rt ≡ x.rd)
      → Good OpcodeR.sllv × Good OpcodeR.srav × Good OpcodeR.srlv
  unfolding compile_r dispatch_r execute_sllv execute_srav execute_srlv set_reg reg shift_value
      decode encode_opcode
  shift-Refines r ne c = (
    refine _ _ _
        (compile_shift-Translates op_shl ext_shl (λ a n. u32 (a <<< n)) (omega arith) (λ bs. refl)
          (λ a n. ap (λ k. some (u32 (a <<< k))) (count-lt n)) x r ne)
        (λ s v. (_, refl, shifted (λ a n. u32 (a <<< n)) s.regs)),
    refine _ _ _
        (compile_shift-Translates op_sar ext_sar (λ a n. sar32 a n) (omega arith) (λ bs. refl)
          (λ a n. ap (λ k. some (sar32 a k)) (count-lt n)) x r ne)
        (λ s v. (_, refl, shifted (λ a n. sar32 a n) s.regs)),
    refine _ _ _
        (compile_shift-Translates op_shr ext_shr (λ a n. a >>> n) (omega arith) (λ bs. refl)
          (λ a n. ap (λ k. some (a >>> k)) (count-lt n)) x r ne)
        (λ s v. (_, refl, shifted (λ a n. a >>> n) s.regs)),
  )
    where
      shifted :
          (f : ℕ → ℕ → ℕ) (g : RegisterFile)
          → assign g x.rd (f (read g x.rt) (bit_and (read g (count_reg x)) 0b11111))
            ≡ write g x.rd (f (read g x.rt) (bit_and (read g x.rs) 0b11111))
      shifted f g =
          ap (λ k. assign g x.rd (f (read g x.rt) (bit_and k 0b11111))) (count_lem x g c)
          ∙ sym (write_nonzero g x.rd _ ne)

  moves-Refines : (r : AreRegs x) → Good OpcodeR.mfhi × Good OpcodeR.mflo
  unfolding compile_r dispatch_r execute_mfhi execute_mflo set_reg reg hi lo
  moves-Refines r = (
    refine _ _ _ (compile_mfhi-Translates x r) (λ s v. (_, refl, refl)),
    refine _ _ _ (compile_mflo-Translates x r) (λ s v. (_, refl, refl)),
  )

  moves_to-Refines : (r : AreRegs x) → x.rs ≢ 0 → Good OpcodeR.mthi × Good OpcodeR.mtlo
  unfolding compile_r dispatch_r execute_mthi execute_mtlo set_hi set_lo reg
  moves_to-Refines r ne = (
    refine _ _ _ (compile_mthi-Translates x r ne) (λ s v. (_, refl, refl)),
    refine _ _ _ (compile_mtlo-Translates x r ne) (λ s v. (_, refl, refl)),
  )

  -- The order in which HI and LO are assigned, and the halves of a 64-bit result
  halves :
      (g : RegisterFile) (p : ℕ)
      → written_back g (p / 2 ^ 32) (p % 2 ^ 32)
        ≡ assign (assign g lo_reg (bit_and p 0xFFFF_FFFF)) hi_reg (p >>> 32)
  halves g p =
      assign_comm g hi_reg lo_reg (p / 2 ^ 32) (p % 2 ^ 32) (omega arith)
      ∙ ap (λ l. assign (assign g lo_reg l) hi_reg (p / 2 ^ 32)) (sym (bit_and_mask 32 p))

  products-Refines : (r : AreRegs x) → Good OpcodeR.mult × Good OpcodeR.multu
  unfolding compile_r dispatch_r execute_mult execute_multu set_hi set_lo reg
  products-Refines r = (
    refine _ _ _ (compile_mult-Translates x r)
        (λ s v. (_, refl, halves s.regs (product64 (read s.regs x.rs) (read s.regs x.rt)))),
    refine _ _ _ (compile_multu-Translates x r) (λ s v.
        let p = read s.regs x.rs * read s.regs x.rt in
        let e : p ≡ p % 2 ^ 64 =
          let h =
            product-lt (read s.regs x.rs) (read s.regs x.rt) (read-lt s.regs v x.rs)
              (read-lt s.regs v x.rt) in
          omega arith in
        (
          _,
          refl,
          ap (λ q. written_back s.regs (q / 2 ^ 32) (q % 2 ^ 32)) e ∙ halves s.regs (p % 2 ^ 64),
        )),
  )

  -- A division reads its operands again behind the assignment to LO.
  rem_lem :
      (f : ℕ → ℕ → ℕ) (r : AreRegs x) (g : RegisterFile) (q : ℕ)
      → written_back g (f (read g x.rs) (read g x.rt)) q
        ≡ assign
            (assign g lo_reg q)
            hi_reg
            (f (read (assign g lo_reg q) x.rs) (read (assign g lo_reg q) x.rt))
  rem_lem f r g q =
      assign_comm g hi_reg lo_reg (f (read g x.rs) (read g x.rt)) q (omega arith)
      ∙ sym (
          ap₂ (λ a c. assign (assign g lo_reg q) hi_reg (f a c))
            (read-assign_ne g lo_reg x.rs q (omega (arith, r.rs_fits)))
            (read-assign_ne g lo_reg x.rt q (omega (arith, r.rt_fits))))

  quotients-Refines : (r : AreRegs x) → Good OpcodeR.div × Good OpcodeR.divu
  unfolding compile_r dispatch_r execute_div execute_divu set_hi set_lo reg
  quotients-Refines r = (
    refine_when _ _ _ _ (compile_div-Translates x r) (λ s v.
        elim (Bool-cases (bad_division (read s.regs x.rs) (read s.regs x.rt))) [
          | inl e ↦ inl (undefined, rw e refl)
          | inr e ↦ inr (
            _,
            e,
            rw e refl,
            rem_lem rem32 r s.regs (div32 (read s.regs x.rs) (read s.regs x.rt)),
          )
        ]),
    refine_when _ _ _ _ (compile_divu-Translates x r) (λ s v.
        elim (Bool-cases (read s.regs x.rt == 0)) [
          | inl e ↦ inl (undefined, rw e refl)
          | inr e ↦ inr (
            _,
            e,
            rw e refl,
            rem_lem (λ a b. a % b) r s.regs (read s.regs x.rs / read s.regs x.rt),
          )
        ]),
  )

  pub compile_r-Refines : (op : OpcodeR) → IsPlainR op x → Good op
  unfolding IsPlainR
  compile_r-Refines OpcodeR.add r = (alu-Refines r).0
  compile_r-Refines OpcodeR.addu r = (alu-Refines r).1
  compile_r-Refines OpcodeR.sub r = (alu-Refines r).2
  compile_r-Refines OpcodeR.subu r = (alu-Refines r).3
  compile_r-Refines OpcodeR.and r = (alu-Refines r).4
  compile_r-Refines OpcodeR.or r = (alu-Refines r).5
  compile_r-Refines OpcodeR.xor r = (alu-Refines r).6
  compile_r-Refines OpcodeR.nor r = (alu-Refines r).7
  compile_r-Refines OpcodeR.slt r = (compare-Refines r).0
  compile_r-Refines OpcodeR.sltu r = (compare-Refines r).1
  compile_r-Refines OpcodeR.sll (r, h) = (shift_imm-Refines r h).0
  compile_r-Refines OpcodeR.sra (r, h) = (shift_imm-Refines r h).1
  compile_r-Refines OpcodeR.srl (r, h) = (shift_imm-Refines r h).2
  compile_r-Refines OpcodeR.sllv (r, ne, c) = (shift-Refines r ne c).0
  compile_r-Refines OpcodeR.srav (r, ne, c) = (shift-Refines r ne c).1
  compile_r-Refines OpcodeR.srlv (r, ne, c) = (shift-Refines r ne c).2
  compile_r-Refines OpcodeR.mfhi r = (moves-Refines r).0
  compile_r-Refines OpcodeR.mflo r = (moves-Refines r).1
  compile_r-Refines OpcodeR.mthi (r, ne) = (moves_to-Refines r ne).0
  compile_r-Refines OpcodeR.mtlo (r, ne) = (moves_to-Refines r ne).1
  compile_r-Refines OpcodeR.mult r = (products-Refines r).0
  compile_r-Refines OpcodeR.multu r = (products-Refines r).1
  compile_r-Refines OpcodeR.div r = (quotients-Refines r).0
  compile_r-Refines OpcodeR.divu r = (quotients-Refines r).1
  compile_r-Refines OpcodeR.jr r = elim r [ ]
  compile_r-Refines OpcodeR.jalr r = elim r [ ]
  compile_r-Refines (OpcodeR.unnamed n) r = elim r [ ]
