-- ===== src/Emulation/InterpreterCore/DelaySlot.antt =====
-- The recursion between `execute` and `jump` of src/emulation/interpreter_core.cpp: it ends after
-- the delay slot when that holds no branch, and never ends when that holds a jump.
use ji_tboy.Base.{
  ℕ, suc, ◌≡◌, refl, ap, Bool, true, false, Bool-cases, some, Option-cases, inl, inr, if◌then◌else◌,
  ◌>>=◌, Outcome, ok, add32, sub32,
}
use ji_tboy.Mips.Isa.{
  OpcodeR, OpcodeI, OpcodeJ, Instruction, r_type, i_type, j_type, InstructionR, InstructionI,
  InstructionJ, Register, ra,
}
use ji_tboy.Mips.Program.{at, valid_addr}
use ji_tboy.Mips.Classify.{is_branch_instr, branches_r, branches_i}
use ji_tboy.Emulation.State.{EmulatorState, set_reg}
use ji_tboy.Emulation.Handlers.Control.{
  branch_target, link, jump, branch, execute_jr, execute_jalr, execute_beq, execute_bgtz,
  execute_blez, execute_bne, execute_bgez, execute_bgezal, execute_bltz, execute_bltzal, execute_j,
  execute_jal,
}
use ji_tboy.Emulation.InterpreterCore.{dispatch_r, dispatch_i, dispatch_j, dispatch, execute}

-- `slot` and `slot'` agree on the delay slot of a branch in the state `s`.
Agree :
    (ℕ → EmulatorState → Outcome EmulatorState)
    → (ℕ → EmulatorState → Outcome EmulatorState)
    → EmulatorState
    → Type 0
Agree slot slot' s = slot (add32 s.pc 4) s ≡ slot' (add32 s.pc 4) s

module _ (slot slot' : ℕ → EmulatorState → Outcome EmulatorState) where
  plain_r-slot :
      (op : OpcodeR) (x : InstructionR) (s : EmulatorState)
      → branches_r op ≡ false
      → dispatch_r slot op x s ≡ dispatch_r slot' op x s
  unfolding dispatch_r branches_r
  plain_r-slot OpcodeR.jr x s h = cc
  plain_r-slot OpcodeR.jalr x s h = cc
  plain_r-slot _ x s h = refl

  plain_i-slot :
      (op : OpcodeI) (x : InstructionI) (s : EmulatorState)
      → branches_i op ≡ false
      → dispatch_i slot op x s ≡ dispatch_i slot' op x s
  unfolding dispatch_i branches_i
  plain_i-slot OpcodeI.beq x s h = cc
  plain_i-slot OpcodeI.bne x s h = cc
  plain_i-slot OpcodeI.bgtz x s h = cc
  plain_i-slot OpcodeI.blez x s h = cc
  plain_i-slot OpcodeI.bgez x s h = cc
  plain_i-slot OpcodeI.bgezal x s h = cc
  plain_i-slot OpcodeI.bltz x s h = cc
  plain_i-slot OpcodeI.bltzal x s h = cc
  plain_i-slot _ x s h = refl

  plain-slot :
      (instr : Instruction) (s : EmulatorState)
      → is_branch_instr instr ≡ false
      → dispatch slot instr s ≡ dispatch slot' instr s
  unfolding dispatch is_branch_instr
  plain-slot (r_type x) s h = plain_r-slot x.op x s h
  plain-slot (i_type x) s h = plain_i-slot x.op x s h
  plain-slot (j_type x) s h = cc

  jump-slot :
      (target : ℕ) (s : EmulatorState)
      → Agree slot slot' s
      → jump slot target s ≡ jump slot' target s
  unfolding jump Agree
  jump-slot target s e =
      ap
        (λ m. (if valid_addr s.program (add32 s.pc 4) then m else ok s) >>= λ s'.
          ok (record s' { pc = sub32 target 4 }))
        e

  branch_if-slot :
      (b : Bool) (x : InstructionI) (s : EmulatorState)
      → Agree slot slot' s
      → (if b then branch slot x s else ok s) ≡ (if b then branch slot' x s else ok s)
  unfolding branch
  branch_if-slot b x s e =
      ap (λ m. if b then m else ok s) (jump-slot (branch_target s.pc x.constant) s e)

  module _ (s : EmulatorState) (here : Agree slot slot' s)
      (linked : (r : Register) → Agree slot slot' (link r s)) where
    branch_r-slot :
        (op : OpcodeR) (x : InstructionR)
        → branches_r op ≡ true
        → dispatch_r slot op x s ≡ dispatch_r slot' op x s
    unfolding dispatch_r branches_r execute_jr execute_jalr
    branch_r-slot OpcodeR.jr x h = jump-slot _ s here
    branch_r-slot OpcodeR.jalr x h = jump-slot _ _ (linked x.rd)
    branch_r-slot _ x h = cc

    branch_i-slot :
        (op : OpcodeI) (x : InstructionI)
        → branches_i op ≡ true
        → dispatch_i slot op x s ≡ dispatch_i slot' op x s
    unfolding dispatch_i branches_i execute_beq execute_bgtz execute_blez execute_bne execute_bgez
        execute_bgezal execute_bltz execute_bltzal
    branch_i-slot OpcodeI.beq x h = branch_if-slot _ x s here
    branch_i-slot OpcodeI.bne x h = branch_if-slot _ x s here
    branch_i-slot OpcodeI.bgtz x h = branch_if-slot _ x s here
    branch_i-slot OpcodeI.blez x h = branch_if-slot _ x s here
    branch_i-slot OpcodeI.bgez x h = branch_if-slot _ x s here
    branch_i-slot OpcodeI.bltz x h = branch_if-slot _ x s here
    branch_i-slot OpcodeI.bgezal x h = branch_if-slot _ x _ (linked ra)
    branch_i-slot OpcodeI.bltzal x h = branch_if-slot _ x _ (linked ra)
    branch_i-slot _ x h = cc

    branch_j-slot :
        (op : OpcodeJ) (x : InstructionJ) → dispatch_j slot op x s ≡ dispatch_j slot' op x s
    unfolding dispatch_j execute_j execute_jal
    branch_j-slot OpcodeJ.j x = jump-slot _ s here
    branch_j-slot OpcodeJ.jal x = jump-slot _ _ (linked ra)
    branch_j-slot (OpcodeJ.unnamed n) x = refl

    -- A dispatch sees of the delay slot only its execution in `s` or in a state linked from `s`.
    dispatch-slot : (instr : Instruction) → dispatch slot instr s ≡ dispatch slot' instr s
    unfolding dispatch
    dispatch-slot (r_type x) = elim (Bool-cases (branches_r x.op)) [
      | inl h ↦ branch_r-slot x.op x h
      | inr h ↦ plain_r-slot x.op x s h
    ]
    dispatch-slot (i_type x) = elim (Bool-cases (branches_i x.op)) [
      | inl h ↦ branch_i-slot x.op x h
      | inr h ↦ plain_i-slot x.op x s h
    ]
    dispatch-slot (j_type x) = branch_j-slot x.op x

-- The delay slot of the branch at the program counter, if the program has it, holds no branch.
abbrev pub PlainSlot : EmulatorState → Type 0
PlainSlot s =
    (instr : Instruction)
    → s.program.source (add32 s.pc 4) ≡ some instr
    → is_branch_instr instr ≡ false

slot-fuel : (fuel : ℕ) (s : EmulatorState) → PlainSlot s → Agree (execute (suc fuel)) (execute 1) s
unfolding Agree execute at
slot-fuel fuel s plain = elim (Option-cases (s.program.source (add32 s.pc 4))) [
  | inl e ↦ rw e refl
  | inr (instr, e) ↦ rw e (plain-slot (execute fuel) (execute 0) instr s (plain instr e))
]

pub execute-fuel :
    (fuel pc : ℕ) (s : EmulatorState) → PlainSlot s → execute (suc (suc fuel)) pc s ≡ execute 2 pc s
unfolding execute at
execute-fuel fuel pc s plain = elim (Option-cases (s.program.source pc)) [
  | inl e ↦ rw e refl
  | inr (instr, e) ↦ rw e (
      dispatch-slot (execute (suc fuel)) (execute 1) s (slot-fuel fuel s plain)
        (λ r. slot-fuel fuel (link r s) (unfold link in unfold set_reg in plain)) instr)
]
