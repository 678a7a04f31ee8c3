-- ===== src/Emulation/InterpreterCore/Validity.antt =====
-- Every handler of src/emulation/interpreter_core.cpp keeps the guest state valid.
use ji_tboy.Base.{
  ℕ, zero, suc, Option-cases, ◌/◌, ◌%◌, ◌<◌, ◌≡◌, arith, Bool, inl, inr, ◌==◌, if◌then◌else◌, u32,
  IsU32, add32, sar32, ◌<<<◌, ◌>>>◌, Outcome, ok, ◌>>=◌, Holds, Holds-bind, undefined,
}
use ji_tboy.Bits.Bound.{bit_or-lt, bit_and-lt, bit_xor-lt}
use ji_tboy.Mips.Isa.{
  OpcodeR, OpcodeI, OpcodeJ, Instruction, r_type, i_type, j_type, InstructionR, InstructionI,
  InstructionJ, Register, ra,
}
use ji_tboy.Mips.RegisterFile.{hi, lo, hi_reg, lo_reg}
use ji_tboy.Mips.RegisterFile.Laws.{read-lt}
use ji_tboy.Mips.MemoryMap.{Width, read as load, write as store}
use ji_tboy.Mips.MemoryMap.Bytes.{IsWords}
use ji_tboy.Mips.MemoryMap.Bounds.{
  read_word-lt, write_word-IsWords, write-IsWords, load_word_left-lt, load_word_right-lt,
}
use ji_tboy.Mips.MemoryMap.Bounds.{read-lt as load-lt}
use ji_tboy.Mips.Program.{Program, at, valid_addr}
use ji_tboy.Emulation.State.{EmulatorState, reg, set_reg}
use ji_tboy.Emulation.Handlers.HiLo.{set_hi, set_lo, div32, rem32, bad_division}
use ji_tboy.Emulation.Handlers.Control.{jump, branch, link}
use ji_tboy.Emulation.Handlers.Alu.{
  execute_add, execute_addu, execute_sub, execute_subu, execute_and, execute_or, execute_nor,
  execute_xor, execute_slt, execute_sltu,
}
use ji_tboy.Emulation.Handlers.HiLo.{
  execute_mult, execute_multu, execute_div, execute_divu, execute_mfhi, execute_mflo, execute_mthi,
  execute_mtlo,
}
use ji_tboy.Emulation.Handlers.Shift.{
  execute_sll, execute_sra, execute_srl, execute_sllv, execute_srav, execute_srlv,
}
use ji_tboy.Emulation.Handlers.Immediate.{
  execute_addi, execute_addiu, execute_andi, execute_ori, execute_xori, execute_slti, execute_sltiu,
  execute_lui,
}
use ji_tboy.Emulation.Handlers.Memory.{
  execute_lw, execute_lb, execute_lbu, execute_lh, execute_lhu, execute_sw, execute_sb, execute_sh,
  execute_lwl, execute_lwr,
}
use ji_tboy.Emulation.Handlers.Control.{
  execute_jr, execute_jalr, execute_beq, execute_bgtz, execute_blez, execute_bne, execute_bgez,
  execute_bgezal, execute_bltz, execute_bltzal, execute_j, execute_jal,
}
use ji_tboy.Emulation.InterpreterCore.{
  dispatch_r, dispatch_i, dispatch_j, dispatch, execute, execute_current,
}
use ji_tboy.Emulation.Guest.{
  IsGuest, ConstantFits, IsProgram, reg-lt, set_reg-IsGuest, set_hi-IsGuest, set_lo-IsGuest,
  set_mem-IsGuest, set_pc-IsGuest, set_hi_lo-IsGuest, sar32-lt, shr-lt, quotient-lt, remainder-lt,
  udiv-lt, umod-lt, test-lt, Holds-unless, Holds-choice, shifted-IsGuest,
}

-- `slot` stands for the execution of the delay slot.
module _ (p : Program) (slot : ℕ → EmulatorState → Outcome EmulatorState)
    (slot-IsGuest : (pc : ℕ) (s : EmulatorState)
      → IsGuest p s
      → Holds (IsGuest p) (slot pc s)) where
  jump-IsGuest :
      (target : ℕ) (s : EmulatorState) → IsGuest p s → Holds (IsGuest p) (jump slot target s)
  unfolding jump
  jump-IsGuest target s g =
      Holds-bind (IsGuest p) (IsGuest p) _ _
        (Holds-choice (IsGuest p) (valid_addr s.program (add32 s.pc 4)) _ (ok s)
          (slot-IsGuest (add32 s.pc 4) s g) g)
        (λ s' g'. set_pc-IsGuest g' _ (omega arith))

  branch_if-IsGuest :
      (b : Bool) (x : InstructionI) (s : EmulatorState)
      → IsGuest p s
      → Holds (IsGuest p) (if b then branch slot x s else ok s)
  unfolding branch
  branch_if-IsGuest b x s g = Holds-choice (IsGuest p) b _ (ok s) (jump-IsGuest _ s g) g

  link-IsGuest : (r : Register) (s : EmulatorState) → IsGuest p s → IsGuest p (link r s)
  unfolding link
  link-IsGuest r s g = set_reg-IsGuest g r _ (omega arith)

  dispatch_r-IsGuest :
      (op : OpcodeR) (x : InstructionR) (s : EmulatorState)
      → IsGuest p s
      → Holds (IsGuest p) (dispatch_r slot op x s)
  unfolding dispatch_r hi lo execute_add execute_addu execute_sub execute_subu execute_and
      execute_or execute_nor execute_xor execute_slt execute_sltu execute_mult execute_multu
      execute_div execute_divu execute_mfhi execute_mflo execute_mthi execute_mtlo execute_sll
      execute_sra execute_srl execute_sllv execute_srav execute_srlv execute_jr execute_jalr
  dispatch_r-IsGuest OpcodeR.add x s g = set_reg-IsGuest g x.rd _ (omega arith)
  dispatch_r-IsGuest OpcodeR.addu x s g = set_reg-IsGuest g x.rd _ (omega arith)
  dispatch_r-IsGuest OpcodeR.sub x s g = set_reg-IsGuest g x.rd _ (omega arith)
  dispatch_r-IsGuest OpcodeR.subu x s g = set_reg-IsGuest g x.rd _ (omega arith)
  dispatch_r-IsGuest OpcodeR.and x s g =
      set_reg-IsGuest g x.rd _ (bit_and-lt 32 _ _ (reg-lt g x.rs))
  dispatch_r-IsGuest OpcodeR.or x s g =
      set_reg-IsGuest g x.rd _ (bit_or-lt 32 _ _ (reg-lt g x.rs) (reg-lt g x.rt))
  dispatch_r-IsGuest OpcodeR.nor x s g = set_reg-IsGuest g x.rd _ (omega arith)
  dispatch_r-IsGuest OpcodeR.xor x s g =
      set_reg-IsGuest g x.rd _ (bit_xor-lt 32 _ _ (reg-lt g x.rs) (reg-lt g x.rt))
  dispatch_r-IsGuest OpcodeR.jr x s g = jump-IsGuest _ s g
  dispatch_r-IsGuest OpcodeR.jalr x s g = jump-IsGuest _ _ (link-IsGuest x.rd s g)
  dispatch_r-IsGuest OpcodeR.mult x s g = set_hi_lo-IsGuest g _ (omega arith)
  dispatch_r-IsGuest OpcodeR.multu x s g = set_hi_lo-IsGuest g _ (omega arith)
  dispatch_r-IsGuest OpcodeR.div x s g =
      Holds-unless (IsGuest p) (bad_division (reg s x.rs) (reg s x.rt)) undefined
        (ok (
          set_hi (set_lo s (div32 (reg s x.rs) (reg s x.rt))) (
            rem32 (reg (set_lo s (div32 (reg s x.rs) (reg s x.rt))) x.rs)
              (reg (set_lo s (div32 (reg s x.rs) (reg s x.rt))) x.rt))))
        (let g' =
            set_lo-IsGuest g (div32 (reg s x.rs) (reg s x.rt))
              (quotient-lt _ _ (reg-lt g x.rs) (reg-lt g x.rt)) in
          set_hi-IsGuest g' _ (remainder-lt _ _ (reg-lt g' x.rs) (reg-lt g' x.rt)))
  dispatch_r-IsGuest OpcodeR.divu x s g =
      Holds-unless (IsGuest p) (reg s x.rt == 0) undefined
        (ok (
          set_hi (set_lo s (reg s x.rs / reg s x.rt)) (
            reg (set_lo s (reg s x.rs / reg s x.rt)) x.rs
            % reg (set_lo s (reg s x.rs / reg s x.rt)) x.rt)))
        (let g' = set_lo-IsGuest g (reg s x.rs / reg s x.rt) (udiv-lt _ _ (reg-lt g x.rs)) in
          set_hi-IsGuest g' _ (umod-lt _ _ (reg-lt g' x.rs)))
  dispatch_r-IsGuest OpcodeR.mfhi x s g =
      set_reg-IsGuest g x.rd _ (read-lt s.regs g.registers hi_reg)
  dispatch_r-IsGuest OpcodeR.mflo x s g =
      set_reg-IsGuest g x.rd _ (read-lt s.regs g.registers lo_reg)
  dispatch_r-IsGuest OpcodeR.mthi x s g = set_hi-IsGuest g _ (reg-lt g x.rs)
  dispatch_r-IsGuest OpcodeR.mtlo x s g = set_lo-IsGuest g _ (reg-lt g x.rs)
  dispatch_r-IsGuest OpcodeR.slt x s g = set_reg-IsGuest g x.rd _ (test-lt _)
  dispatch_r-IsGuest OpcodeR.sltu x s g = set_reg-IsGuest g x.rd _ (test-lt _)
  dispatch_r-IsGuest OpcodeR.sll x s g =
      shifted-IsGuest s g x.rd x.sa (u32 (reg s x.rt <<< x.sa)) (omega arith)
  dispatch_r-IsGuest OpcodeR.sllv x s g = set_reg-IsGuest g x.rd _ (omega arith)
  dispatch_r-IsGuest OpcodeR.sra x s g =
      shifted-IsGuest s g x.rd x.sa (sar32 (reg s x.rt) x.sa) (sar32-lt _ x.sa (reg-lt g x.rt))
  dispatch_r-IsGuest OpcodeR.srav x s g = set_reg-IsGuest g x.rd _ (sar32-lt _ _ (reg-lt g x.rt))
  dispatch_r-IsGuest OpcodeR.srl x s g =
      shifted-IsGuest s g x.rd x.sa (reg s x.rt >>> x.sa) (shr-lt _ x.sa (reg-lt g x.rt))
  dispatch_r-IsGuest OpcodeR.srlv x s g = set_reg-IsGuest g x.rd _ (shr-lt _ _ (reg-lt g x.rt))
  dispatch_r-IsGuest (OpcodeR.unnamed n) x s g = tt

  load-IsGuest :
      (w : Width) (x : InstructionI) (s : EmulatorState) (addr : ℕ)
      → IsGuest p s
      → Holds (IsGuest p) (load w s.mem addr >>= λ value. ok (set_reg s x.rt value))
  load-IsGuest w x s addr g =
      Holds-bind IsU32 (IsGuest p) _ _ (load-lt w s.mem addr)
        (λ value h. set_reg-IsGuest g x.rt value h)

  store-IsGuest :
      (w : Width) (s : EmulatorState) (addr value : ℕ)
      → IsGuest p s
      → Holds (IsGuest p) (store w s.mem addr value >>= λ mem. ok (record s { mem = mem }))
  store-IsGuest w s addr value g =
      Holds-bind IsWords (IsGuest p) _ _ (write-IsWords w s.mem addr value g.words)
        (λ mem words. set_mem-IsGuest g mem words)

  dispatch_i-IsGuest :
      (op : OpcodeI) (x : InstructionI) (s : EmulatorState)
      → x.constant < 0x1_0000
      → IsGuest p s
      → Holds (IsGuest p) (dispatch_i slot op x s)
  unfolding dispatch_i execute_addi execute_addiu execute_andi execute_ori execute_xori execute_slti
      execute_sltiu execute_lui execute_lw execute_lb execute_lbu execute_lh execute_lhu execute_sw
      execute_sb execute_sh execute_lwl execute_lwr execute_beq execute_bgtz execute_blez
      execute_bne execute_bgez execute_bgezal execute_bltz execute_bltzal
  dispatch_i-IsGuest OpcodeI.addi x s c g = set_reg-IsGuest g x.rt _ (omega arith)
  dispatch_i-IsGuest OpcodeI.addiu x s c g = set_reg-IsGuest g x.rt _ (omega arith)
  dispatch_i-IsGuest OpcodeI.andi x s c g =
      set_reg-IsGuest g x.rt _ (bit_and-lt 32 _ _ (reg-lt g x.rs))
  dispatch_i-IsGuest OpcodeI.ori x s c g =
      set_reg-IsGuest g x.rt _ (bit_or-lt 32 _ _ (reg-lt g x.rs) (omega arith))
  dispatch_i-IsGuest OpcodeI.xori x s c g =
      set_reg-IsGuest g x.rt _ (bit_xor-lt 32 _ _ (reg-lt g x.rs) (omega arith))
  dispatch_i-IsGuest OpcodeI.slti x s c g = set_reg-IsGuest g x.rt _ (test-lt _)
  dispatch_i-IsGuest OpcodeI.sltiu x s c g = set_reg-IsGuest g x.rt _ (test-lt _)
  dispatch_i-IsGuest OpcodeI.lui x s c g = set_reg-IsGuest g x.rt _ (omega arith)
  dispatch_i-IsGuest OpcodeI.lw x s c g = set_reg-IsGuest g x.rt _ (read_word-lt s.mem _ g.words)
  dispatch_i-IsGuest OpcodeI.lb x s c g = load-IsGuest Width.byte x s _ g
  dispatch_i-IsGuest OpcodeI.lbu x s c g = load-IsGuest Width.ubyte x s _ g
  dispatch_i-IsGuest OpcodeI.lh x s c g = load-IsGuest Width.half x s _ g
  dispatch_i-IsGuest OpcodeI.lhu x s c g = load-IsGuest Width.uhalf x s _ g
  dispatch_i-IsGuest OpcodeI.sw x s c g =
      set_mem-IsGuest g _ (write_word-IsWords s.mem _ _ g.words (reg-lt g x.rt))
  dispatch_i-IsGuest OpcodeI.sb x s c g = store-IsGuest Width.ubyte s _ _ g
  dispatch_i-IsGuest OpcodeI.sh x s c g = store-IsGuest Width.uhalf s _ _ g
  dispatch_i-IsGuest OpcodeI.beq x s c g = branch_if-IsGuest _ x s g
  dispatch_i-IsGuest OpcodeI.bgtz x s c g = branch_if-IsGuest _ x s g
  dispatch_i-IsGuest OpcodeI.blez x s c g = branch_if-IsGuest _ x s g
  dispatch_i-IsGuest OpcodeI.bne x s c g = branch_if-IsGuest _ x s g
  dispatch_i-IsGuest OpcodeI.lwl x s c g = set_reg-IsGuest g x.rt _ (load_word_left-lt s.mem _ _)
  dispatch_i-IsGuest OpcodeI.lwr x s c g = set_reg-IsGuest g x.rt _ (load_word_right-lt s.mem _ _)
  dispatch_i-IsGuest OpcodeI.bgez x s c g = branch_if-IsGuest _ x s g
  dispatch_i-IsGuest OpcodeI.bgezal x s c g = branch_if-IsGuest _ x _ (link-IsGuest ra s g)
  dispatch_i-IsGuest OpcodeI.bltz x s c g = branch_if-IsGuest _ x s g
  dispatch_i-IsGuest OpcodeI.bltzal x s c g = branch_if-IsGuest _ x _ (link-IsGuest ra s g)
  dispatch_i-IsGuest (OpcodeI.unnamed n) x s c g = tt

  dispatch_j-IsGuest :
      (op : OpcodeJ) (x : InstructionJ) (s : EmulatorState)
      → IsGuest p s
      → Holds (IsGuest p) (dispatch_j slot op x s)
  unfolding dispatch_j execute_j execute_jal
  dispatch_j-IsGuest OpcodeJ.j x s g = jump-IsGuest _ s g
  dispatch_j-IsGuest OpcodeJ.jal x s g = jump-IsGuest _ _ (link-IsGuest ra s g)
  dispatch_j-IsGuest (OpcodeJ.unnamed n) x s g = tt

  dispatch-IsGuest :
      (instr : Instruction) (s : EmulatorState)
      → ConstantFits instr
      → IsGuest p s
      → Holds (IsGuest p) (dispatch slot instr s)
  unfolding dispatch
  dispatch-IsGuest (r_type x) s c g = dispatch_r-IsGuest x.op x s g
  dispatch-IsGuest (i_type x) s c g = dispatch_i-IsGuest x.op x s c g
  dispatch-IsGuest (j_type x) s c g = dispatch_j-IsGuest x.op x s g

-- The program is in `p`, so the guest instruction at `pc` has a constant that fits.
at-ConstantFits : (p : Program) → IsProgram p → (pc : ℕ) → Holds ConstantFits (at p pc)
unfolding at
at-ConstantFits p f pc = elim (Option-cases (p.source pc)) [
  | inl e ↦ rw e tt
  | inr (instr, e) ↦ rw e (f pc instr e)
]

same-IsProgram : (p q : Program) → q ≡ p → IsProgram p → IsProgram q
same-IsProgram p q e f = rw e f

-- If the constants of the program are 16-bit patterns, an interpreter step with its delay slot,
-- when it returns, keeps the state valid: every register and memory word is a 32-bit value,
-- `$zero` holds 0, and the program is the same.
pub execute-IsGuest :
    (p : Program)
    → IsProgram p
    → (fuel pc : ℕ) (s : EmulatorState) → IsGuest p s
    → Holds (IsGuest p) (execute fuel pc s)
unfolding execute
execute-IsGuest p f zero pc s g = tt
execute-IsGuest p f (suc fuel) pc s g =
    Holds-bind ConstantFits (IsGuest p) _ _
      (at-ConstantFits s.program (same-IsProgram p s.program g.same_program f) pc)
      (λ instr c. dispatch-IsGuest p (execute fuel) (execute-IsGuest p f fuel) instr s c g)

pub execute_current-IsGuest :
    (p : Program)
    → IsProgram p
    → (fuel : ℕ) (s : EmulatorState) → IsGuest p s
    → Holds (IsGuest p) (execute_current fuel s)
unfolding execute_current
execute_current-IsGuest p f fuel s g =
    Holds-bind (IsGuest p) (IsGuest p) _ _ (execute-IsGuest p f fuel s.pc s g)
      (λ s' g'. set_pc-IsGuest g' _ (omega arith))
