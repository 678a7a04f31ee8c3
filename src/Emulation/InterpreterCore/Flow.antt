-- ===== src/Emulation/InterpreterCore/Flow.antt =====
-- Where the program counter goes: branches and jumps of src/emulation/interpreter_core.cpp.
use ji_tboy.Base.{
  ℕ, suc, ◌≡◌, refl, ap, arith, Bool, true, false, Bool-cases, inl, inr, if◌then◌else◌, not,
  Outcome, ok, Holds, Holds-map, Holds-weaken, Holds-bind, add32, sub32, IsU32,
}
use ji_tboy.Mips.Isa.{
  OpcodeR, OpcodeI, OpcodeJ, Instruction, r_type, i_type, j_type, InstructionR, InstructionI,
  InstructionJ, Register, ra,
}
use ji_tboy.Mips.Program.{Program, at, valid_addr}
use ji_tboy.Mips.Classify.{branches_r, branches_i, writes_r, writes_i}
use ji_tboy.Emulation.State.{EmulatorState, reg, set_reg}
use ji_tboy.Emulation.Guest.{IsGuest, reg-lt, set_reg-IsGuest}
use ji_tboy.Emulation.Handlers.Control.{
  j_target, branch_target, link, jump, branch, execute_jr, execute_jalr, execute_beq, execute_bgtz,
  execute_blez, execute_bne, execute_bgez, execute_bgezal, execute_bltz, execute_bltzal, execute_j,
  execute_jal,
}
use ji_tboy.Emulation.InterpreterCore.{
  dispatch_r, dispatch_i, dispatch_j, dispatch, execute, execute_current,
}
use ji_tboy.Emulation.InterpreterCore.Frame.{Effect-pc}
use ji_tboy.Emulation.InterpreterCore.Effect.{
  Effect, dispatch_r-Effect, dispatch_i-Effect, stores_i,
}
use ji_tboy.Emulation.InterpreterCore.NextPc.{
  taken, linked_r, linked_i, next_r, next_i, next_pc, positive-slt32, not_positive-slt32,
  negative-slt32, add32-sub32, plain-taken, j_target-lt,
}

-- The state is one whose next instruction is at `n`.
Resumes : ℕ → EmulatorState → Type 0
Resumes n s = add32 s.pc 4 ≡ n

module _ (slot : ℕ → EmulatorState → Outcome EmulatorState) where
  jump-Resumes :
      (target : ℕ) (s : EmulatorState) → IsU32 target → Holds (Resumes target) (jump slot target s)
  unfolding jump Resumes
  jump-Resumes target s h =
      Holds-map (Resumes target)
        (if valid_addr s.program (add32 s.pc 4) then slot (add32 s.pc 4) s else ok s)
        (λ s'. ok (record s' { pc = sub32 target 4 })) (λ s'. add32-sub32 target h)

  -- `b` is the condition in the code, `c` its description.
  branch_if-Resumes :
      (b c : Bool) (x : InstructionI) (s : EmulatorState)
      → b ≡ c
      → Holds
          (Resumes (if c then branch_target s.pc x.constant else add32 s.pc 4))
          (if b then branch slot x s else ok s)
  unfolding branch Resumes
  branch_if-Resumes b true x s e =
      rw e (jump-Resumes (branch_target s.pc x.constant) s (omega arith))
  branch_if-Resumes b false x s e = rw e refl

  plain-Resumes :
      (writes : Register → Bool) (stores : Bool) (s : EmulatorState) (m : Outcome EmulatorState)
      → Holds (Effect writes stores s) m
      → Holds (Resumes (add32 s.pc 4)) m
  unfolding Resumes
  plain-Resumes writes stores s m h =
      Holds-weaken (Effect writes stores s) (Resumes (add32 s.pc 4)) m
        (λ s' e. ap (λ pc. add32 pc 4) (Effect-pc e)) h

  flow_j :
      (op : OpcodeJ) (x : InstructionJ) (s : EmulatorState)
      → Holds (Resumes (j_target s.pc x.target)) (dispatch_j slot op x s)
  unfolding dispatch_j execute_j execute_jal link set_reg
  flow_j OpcodeJ.j x s = jump-Resumes _ s (j_target-lt s.pc x.target)
  flow_j OpcodeJ.jal x s = jump-Resumes _ _ (j_target-lt s.pc x.target)
  flow_j (OpcodeJ.unnamed n) x s = tt

  module _ {p : Program} where
    branch_r-Resumes :
        (op : OpcodeR) (x : InstructionR) (s : EmulatorState)
        → IsGuest p s
        → branches_r op ≡ true
        → Holds (Resumes (next_r op x s)) (dispatch_r slot op x s)
    unfolding next_r linked_r link branches_r dispatch_r execute_jr execute_jalr
    branch_r-Resumes OpcodeR.jr x s g h = jump-Resumes (reg s x.rs) s (reg-lt g x.rs)
    branch_r-Resumes OpcodeR.jalr x s g h =
        let g' = set_reg-IsGuest g x.rd (add32 s.pc 8) (omega arith) in
        jump-Resumes _ _ (reg-lt g' x.rs)
    branch_r-Resumes _ x s g h = cc

    flow_r :
        (op : OpcodeR) (x : InstructionR) (s : EmulatorState)
        → IsGuest p s
        → Holds (Resumes (next_r op x s)) (dispatch_r slot op x s)
    flow_r op x s g = elim (Bool-cases (branches_r op)) [
      | inl h ↦ branch_r-Resumes op x s g h
      | inr h ↦
          unfold next_r in
          rw h (
            plain-Resumes (λ q. writes_r op q x) false s (dispatch_r slot op x s)
              (dispatch_r-Effect slot op x s h))
    ]

    branch_i-Resumes :
        (op : OpcodeI) (x : InstructionI) (s : EmulatorState)
        → IsGuest p s
        → branches_i op ≡ true
        → Holds (Resumes (next_i op x s)) (dispatch_i slot op x s)
    unfolding next_i linked_i link taken branches_i dispatch_i execute_beq execute_bgtz execute_blez
        execute_bne execute_bgez execute_bgezal execute_bltz execute_bltzal
    branch_i-Resumes OpcodeI.beq x s g h = branch_if-Resumes _ _ x s refl
    branch_i-Resumes OpcodeI.bne x s g h = branch_if-Resumes _ _ x s refl
    branch_i-Resumes OpcodeI.bgtz x s g h =
        branch_if-Resumes _ _ x s (positive-slt32 _ (reg-lt g x.rs))
    branch_i-Resumes OpcodeI.blez x s g h =
        branch_if-Resumes _ _ x s (not_positive-slt32 _ (reg-lt g x.rs))
    branch_i-Resumes OpcodeI.bgez x s g h =
        branch_if-Resumes _ _ x s (ap not (negative-slt32 _ (reg-lt g x.rs)))
    branch_i-Resumes OpcodeI.bltz x s g h =
        branch_if-Resumes _ _ x s (negative-slt32 _ (reg-lt g x.rs))
    branch_i-Resumes OpcodeI.bgezal x s g h =
        let g' = set_reg-IsGuest g ra (add32 s.pc 8) (omega arith) in
        branch_if-Resumes _ _ x _ (ap not (negative-slt32 _ (reg-lt g' x.rs)))
    branch_i-Resumes OpcodeI.bltzal x s g h =
        let g' = set_reg-IsGuest g ra (add32 s.pc 8) (omega arith) in
        branch_if-Resumes _ _ x _ (negative-slt32 _ (reg-lt g' x.rs))
    branch_i-Resumes _ x s g h = cc

    flow_i :
        (op : OpcodeI) (x : InstructionI) (s : EmulatorState)
        → IsGuest p s
        → Holds (Resumes (next_i op x s)) (dispatch_i slot op x s)
    flow_i op x s g = elim (Bool-cases (branches_i op)) [
      | inl h ↦ branch_i-Resumes op x s g h
      | inr h ↦
          unfold next_i in
          rw (plain-taken op (reg (linked_i op s) x.rs) (reg (linked_i op s) x.rt) h) (
            plain-Resumes (λ q. writes_i op q x) (stores_i op) s (dispatch_i slot op x s)
              (dispatch_i-Effect slot op x s h))
    ]

    flow :
        (instr : Instruction) (s : EmulatorState)
        → IsGuest p s
        → Holds (Resumes (next_pc instr s)) (dispatch slot instr s)
    unfolding next_pc dispatch
    flow (r_type x) s g = flow_r x.op x s g
    flow (i_type x) s g = flow_i x.op x s g
    flow (j_type x) s g = flow_j x.op x s

-- In a valid state, if executing the instruction at the program counter (with its delay slot when
-- it is a taken branch) returns, the program counter is at the target of a taken branch or jump
-- and at the next word otherwise; the branch conditions are those on signed numbers.
pub execute_current-next_pc :
    (p : Program) (fuel : ℕ) (instr : Instruction) (s : EmulatorState)
    → IsGuest p s
    → at s.program s.pc ≡ ok instr
    → Holds (λ s'. s'.pc ≡ next_pc instr s) (execute_current (suc fuel) s)
unfolding execute_current execute Resumes
execute_current-next_pc p fuel instr s g e = rw e (
    Holds-bind (Resumes (next_pc instr s)) (λ s'. s'.pc ≡ next_pc instr s)
      (dispatch (execute fuel) instr s) (λ s'. ok (record s' { pc = add32 s'.pc 4 }))
      (flow (execute fuel) instr s g) (λ s' h. h))
