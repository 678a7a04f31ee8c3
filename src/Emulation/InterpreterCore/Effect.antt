-- ===== src/Emulation/InterpreterCore/Effect.antt =====
-- What one instruction that is no branch can change: src/emulation/interpreter_core.cpp
-- against src/mips/utils.cpp.
use ji_tboy.Base.{
  ℕ, ◌<◌, ◌≡◌, refl, ◌∙◌, arith, Bool, true, false, ◌==◌, ◌>>=◌, ltb, Outcome, ok, Holds, Holds-map,
  undefined, get_or-set_ne, ◌/◌, ◌>>>◌, u32, sar32, ◌<<<◌,
}
use ji_tboy.Mips.Isa.{
  OpcodeR, OpcodeI, Instruction, r_type, i_type, j_type, InstructionR, InstructionI, Register,
}
use ji_tboy.Mips.RegisterFile.{RegisterFile, read, assign, hi_reg, lo_reg}
use ji_tboy.Mips.MemoryMap.{MemoryMap, Width, read as load, write as store}
use ji_tboy.Mips.Classify.{branches_r, branches_i, writes_r, writes_i, is_branch_instr, writes_reg}
use ji_tboy.Emulation.State.{EmulatorState, reg, set_reg}
use ji_tboy.Emulation.Guest.{Holds-unless}
use ji_tboy.Emulation.Handlers.HiLo.{set_hi, set_lo, div32, bad_division}
use ji_tboy.Emulation.Handlers.Alu.{
  execute_add, execute_addu, execute_sub, execute_subu, execute_and, execute_or, execute_nor,
  execute_xor, execute_slt, execute_sltu,
}
use ji_tboy.Emulation.Handlers.HiLo.{
  execute_mult, execute_multu, execute_div, execute_divu, execute_mfhi, execute_mflo, execute_mthi,
  execute_mtlo,
}
use ji_tboy.Emulation.Handlers.Shift.{
  execute_sll, execute_sra, execute_srl, execute_sllv, execute_srav, execute_srlv,
}
use ji_tboy.Emulation.Handlers.Immediate.{
  execute_addi, execute_addiu, execute_andi, execute_ori, execute_xori, execute_slti, execute_sltiu,
  execute_lui,
}
use ji_tboy.Emulation.Handlers.Memory.{
  calc_mem_target, execute_lw, execute_lb, execute_lbu, execute_lh, execute_lhu, execute_sw,
  execute_sb, execute_sh, execute_lwl, execute_lwr,
}
use ji_tboy.Emulation.InterpreterCore.{dispatch_r, dispatch_i, dispatch}

unfoldable pub stores_i : OpcodeI → Bool
stores_i OpcodeI.sw = true
stores_i OpcodeI.sb = true
stores_i OpcodeI.sh = true
stores_i _ = false

-- The instructions whose `rt` is the source of a store.
unfoldable pub is_store : Instruction → Bool
unfolding stores_i
is_store (i_type x) = stores_i x.op
is_store _ = false

-- The state changes at the one register that `writes` names, at HI and LO, or in memory.
pub data Effect (writes : Register → Bool) (stores : Bool) (s s' : EmulatorState) : Type 0 where
  to_reg :
      (r : Register) (value : ℕ)
      → ((q : Register) → writes q ≡ (q == r))
      → s' ≡ set_reg s r value
      → Effect writes stores s s'
  to_hi_lo :
      (f : RegisterFile)
      → ((q : Register) → writes q ≡ false)
      → ((q : Register) → q < 32 → read f q ≡ read s.regs q)
      → s' ≡ record s { regs = f }
      → Effect writes stores s s'
  to_mem : (m : MemoryMap) → stores ≡ true → s' ≡ record s { mem = m } → Effect writes stores s s'

read-assign_ne :
    (f : RegisterFile) (r q : Register) (value : ℕ)
    → 31 < r
    → q < 32
    → read (assign f r value) q ≡ read f q
unfolding read assign
read-assign_ne f r q value h g = get_or-set_ne f.regs r q value 0 (omega arith)

module _ (writes : Register → Bool) (none_written : (q : Register) → writes q ≡ false) where
  set_hi-Effect : (s : EmulatorState) (value : ℕ) → Effect writes false s (set_hi s value)
  unfolding set_hi
  set_hi-Effect s value =
      to_hi_lo (assign s.regs hi_reg value) none_written
        (λ q h. read-assign_ne s.regs hi_reg q value (omega arith) h) refl

  set_lo-Effect : (s : EmulatorState) (value : ℕ) → Effect writes false s (set_lo s value)
  unfolding set_lo
  set_lo-Effect s value =
      to_hi_lo (assign s.regs lo_reg value) none_written
        (λ q h. read-assign_ne s.regs lo_reg q value (omega arith) h) refl

  set_lo_hi-Effect : (s : EmulatorState) (l h : ℕ) → Effect writes false s (set_hi (set_lo s l) h)
  unfolding set_hi set_lo
  set_lo_hi-Effect s l h =
      to_hi_lo (assign (assign s.regs lo_reg l) hi_reg h) none_written
        (λ q g.
          read-assign_ne (assign s.regs lo_reg l) hi_reg q h (omega arith) g
          ∙ read-assign_ne s.regs lo_reg q l (omega arith) g)
        refl

load-Effect :
    (x : InstructionI) (s : EmulatorState) (m : Outcome ℕ)
    → Holds (Effect (λ q. q == x.rt) false s) (m >>= λ value. ok (set_reg s x.rt value))
load-Effect x s m =
    Holds-map (Effect (λ q. q == x.rt) false s) m (λ value. ok (set_reg s x.rt value))
      (λ value. to_reg x.rt value (λ q. refl) refl)

store-Effect :
    (writes : Register → Bool) (s : EmulatorState) (m : Outcome MemoryMap)
    → Holds (Effect writes true s) (m >>= λ mem. ok (record s { mem = mem }))
store-Effect writes s m =
    Holds-map (Effect writes true s) m (λ mem. ok (record s { mem = mem }))
      (λ mem. to_mem mem refl refl)

module _ (slot : ℕ → EmulatorState → Outcome EmulatorState) where
  pub dispatch_r-Effect :
      (op : OpcodeR) (x : InstructionR) (s : EmulatorState)
      → branches_r op ≡ false
      → Holds (Effect (λ q. writes_r op q x) false s) (dispatch_r slot op x s)
  unfolding branches_r writes_r dispatch_r execute_add execute_addu execute_sub execute_subu
      execute_and execute_or execute_nor execute_xor execute_slt execute_sltu execute_mult
      execute_multu execute_div execute_divu execute_mfhi execute_mflo execute_mthi execute_mtlo
      execute_sll execute_sra execute_srl execute_sllv execute_srav execute_srlv
  dispatch_r-Effect OpcodeR.add x s h = to_reg x.rd _ (λ q. refl) refl
  dispatch_r-Effect OpcodeR.addu x s h = to_reg x.rd _ (λ q. refl) refl
  dispatch_r-Effect OpcodeR.sub x s h = to_reg x.rd _ (λ q. refl) refl
  dispatch_r-Effect OpcodeR.subu x s h = to_reg x.rd _ (λ q. refl) refl
  dispatch_r-Effect OpcodeR.and x s h = to_reg x.rd _ (λ q. refl) refl
  dispatch_r-Effect OpcodeR.or x s h = to_reg x.rd _ (λ q. refl) refl
  dispatch_r-Effect OpcodeR.nor x s h = to_reg x.rd _ (λ q. refl) refl
  dispatch_r-Effect OpcodeR.xor x s h = to_reg x.rd _ (λ q. refl) refl
  dispatch_r-Effect OpcodeR.mfhi x s h = to_reg x.rd _ (λ q. refl) refl
  dispatch_r-Effect OpcodeR.mflo x s h = to_reg x.rd _ (λ q. refl) refl
  dispatch_r-Effect OpcodeR.slt x s h = to_reg x.rd _ (λ q. refl) refl
  dispatch_r-Effect OpcodeR.sltu x s h = to_reg x.rd _ (λ q. refl) refl
  dispatch_r-Effect OpcodeR.sllv x s h = to_reg x.rd _ (λ q. refl) refl
  dispatch_r-Effect OpcodeR.srav x s h = to_reg x.rd _ (λ q. refl) refl
  dispatch_r-Effect OpcodeR.srlv x s h = to_reg x.rd _ (λ q. refl) refl
  dispatch_r-Effect OpcodeR.sll x s h =
      Holds-unless (Effect (λ q. q == x.rd) false s) (ltb 31 x.sa) undefined
        (ok (set_reg s x.rd (u32 (reg s x.rt <<< x.sa))))
        (to_reg x.rd (u32 (reg s x.rt <<< x.sa)) (λ q. refl) refl)
  dispatch_r-Effect OpcodeR.sra x s h =
      Holds-unless (Effect (λ q. q == x.rd) false s) (ltb 31 x.sa) undefined
        (ok (set_reg s x.rd (sar32 (reg s x.rt) x.sa)))
        (to_reg x.rd (sar32 (reg s x.rt) x.sa) (λ q. refl) refl)
  dispatch_r-Effect OpcodeR.srl x s h =
      Holds-unless (Effect (λ q. q == x.rd) false s) (ltb 31 x.sa) undefined
        (ok (set_reg s x.rd (reg s x.rt >>> x.sa)))
        (to_reg x.rd (reg s x.rt >>> x.sa) (λ q. refl) refl)
  dispatch_r-Effect OpcodeR.mult x s h = set_lo_hi-Effect (λ q. false) (λ q. refl) s _ _
  dispatch_r-Effect OpcodeR.multu x s h = set_lo_hi-Effect (λ q. false) (λ q. refl) s _ _
  dispatch_r-Effect OpcodeR.div x s h =
      Holds-unless (Effect (λ q. false) false s) (bad_division (reg s x.rs) (reg s x.rt)) undefined
        _ (set_lo_hi-Effect (λ q. false) (λ q. refl) s (div32 (reg s x.rs) (reg s x.rt)) _)
  dispatch_r-Effect OpcodeR.divu x s h =
      Holds-unless (Effect (λ q. false) false s) (reg s x.rt == 0) undefined _
        (set_lo_hi-Effect (λ q. false) (λ q. refl) s (reg s x.rs / reg s x.rt) _)
  dispatch_r-Effect OpcodeR.mthi x s h = set_hi-Effect (λ q. false) (λ q. refl) s _
  dispatch_r-Effect OpcodeR.mtlo x s h = set_lo-Effect (λ q. false) (λ q. refl) s _
  dispatch_r-Effect OpcodeR.jr x s h = cc
  dispatch_r-Effect OpcodeR.jalr x s h = cc
  dispatch_r-Effect (OpcodeR.unnamed n) x s h = tt

  pub dispatch_i-Effect :
      (op : OpcodeI) (x : InstructionI) (s : EmulatorState)
      → branches_i op ≡ false
      → Holds (Effect (λ q. writes_i op q x) (stores_i op) s) (dispatch_i slot op x s)
  unfolding branches_i writes_i stores_i dispatch_i execute_addi execute_addiu execute_andi
      execute_ori execute_xori execute_slti execute_sltiu execute_lui execute_lw execute_lb
      execute_lbu execute_lh execute_lhu execute_sw execute_sb execute_sh execute_lwl execute_lwr
  dispatch_i-Effect OpcodeI.addi x s h = to_reg x.rt _ (λ q. refl) refl
  dispatch_i-Effect OpcodeI.addiu x s h = to_reg x.rt _ (λ q. refl) refl
  dispatch_i-Effect OpcodeI.andi x s h = to_reg x.rt _ (λ q. refl) refl
  dispatch_i-Effect OpcodeI.ori x s h = to_reg x.rt _ (λ q. refl) refl
  dispatch_i-Effect OpcodeI.xori x s h = to_reg x.rt _ (λ q. refl) refl
  dispatch_i-Effect OpcodeI.slti x s h = to_reg x.rt _ (λ q. refl) refl
  dispatch_i-Effect OpcodeI.sltiu x s h = to_reg x.rt _ (λ q. refl) refl
  dispatch_i-Effect OpcodeI.lui x s h = to_reg x.rt _ (λ q. refl) refl
  dispatch_i-Effect OpcodeI.lw x s h = to_reg x.rt _ (λ q. refl) refl
  dispatch_i-Effect OpcodeI.lwl x s h = to_reg x.rt _ (λ q. refl) refl
  dispatch_i-Effect OpcodeI.lwr x s h = to_reg x.rt _ (λ q. refl) refl
  dispatch_i-Effect OpcodeI.lb x s h = load-Effect x s (load Width.byte s.mem (calc_mem_target x s))
  dispatch_i-Effect OpcodeI.lbu x s h =
      load-Effect x s (load Width.ubyte s.mem (calc_mem_target x s))
  dispatch_i-Effect OpcodeI.lh x s h = load-Effect x s (load Width.half s.mem (calc_mem_target x s))
  dispatch_i-Effect OpcodeI.lhu x s h =
      load-Effect x s (load Width.uhalf s.mem (calc_mem_target x s))
  dispatch_i-Effect OpcodeI.sw x s h = to_mem _ refl refl
  dispatch_i-Effect OpcodeI.sb x s h =
      store-Effect (λ q. q == x.rt) s (store Width.ubyte s.mem (calc_mem_target x s) (reg s x.rt))
  dispatch_i-Effect OpcodeI.sh x s h =
      store-Effect (λ q. q == x.rt) s (store Width.uhalf s.mem (calc_mem_target x s) (reg s x.rt))
  dispatch_i-Effect OpcodeI.beq x s h = cc
  dispatch_i-Effect OpcodeI.bgtz x s h = cc
  dispatch_i-Effect OpcodeI.blez x s h = cc
  dispatch_i-Effect OpcodeI.bne x s h = cc
  dispatch_i-Effect OpcodeI.bgez x s h = cc
  dispatch_i-Effect OpcodeI.bgezal x s h = cc
  dispatch_i-Effect OpcodeI.bltz x s h = cc
  dispatch_i-Effect OpcodeI.bltzal x s h = cc
  dispatch_i-Effect (OpcodeI.unnamed n) x s h = tt

  -- An instruction that is no branch has one of the three effects, at the register of `writes_reg`.
  pub dispatch-Effect :
      (instr : Instruction) (s : EmulatorState)
      → is_branch_instr instr ≡ false
      → Holds (Effect (writes_reg instr) (is_store instr) s) (dispatch slot instr s)
  unfolding dispatch is_branch_instr writes_reg is_store
  dispatch-Effect (r_type x) s h = dispatch_r-Effect x.op x s h
  dispatch-Effect (i_type x) s h = dispatch_i-Effect x.op x s h
  dispatch-Effect (j_type x) s h = cc
