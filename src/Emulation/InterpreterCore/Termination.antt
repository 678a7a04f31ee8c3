-- ===== src/Emulation/InterpreterCore/Termination.antt =====
-- When the recursion between `execute` and `jump` of src/emulation/interpreter_core.cpp ends.
use ji_tboy.Base.{
  ℕ, zero, suc, ◌≡◌, ◌≢◌, refl, sym, ◌∙◌, ap, Bool, true, false, Bool-cases, some, Option-cases,
  inl, inr, ◌==◌, if◌then◌else◌, not, ◌>>=◌, Outcome, ok, err, out_of_fuel, undefined, Fault, add32,
  ltb, ◌+◌, ◌%◌,
}
use ji_tboy.Mips.Isa.{
  OpcodeR, OpcodeI, OpcodeJ, Instruction, r_type, i_type, j_type, InstructionR, InstructionI,
  InstructionJ, Register, ra,
}
use ji_tboy.Mips.MemoryMap.{MemoryMap, Width, read as load, write as store, shamt, size}
use ji_tboy.Mips.Program.{Program, at, valid_addr}
use ji_tboy.Mips.Classify.{is_branch_instr, branches_r, branches_i}
use ji_tboy.Emulation.State.{EmulatorState, reg, set_reg}
use ji_tboy.Emulation.Handlers.HiLo.{bad_division, execute_div, execute_divu}
use ji_tboy.Emulation.Handlers.Shift.{execute_sll, execute_sra, execute_srl}
use ji_tboy.Emulation.Handlers.Memory.{
  execute_lb, execute_lbu, execute_lh, execute_lhu, execute_sb, execute_sh,
}
use ji_tboy.Emulation.Handlers.Control.{
  branch_target, link, jump, branch, execute_jr, execute_jalr, execute_beq, execute_bgtz,
  execute_blez, execute_bne, execute_bgez, execute_bgezal, execute_bltz, execute_bltzal, execute_j,
  execute_jal,
}
use ji_tboy.Emulation.InterpreterCore.{dispatch_r, dispatch_i, dispatch_j, dispatch, execute}
use ji_tboy.Emulation.InterpreterCore.DelaySlot.{PlainSlot, execute-fuel}

is_fuel : Fault → Bool
is_fuel out_of_fuel = true
is_fuel _ = false

-- The call returned or failed, without running out of fuel.
pub finishes {ℓ} : {A : Type ℓ} → Outcome A → Bool
unfolding is_fuel
finishes (ok a) = true
finishes (err e) = not (is_fuel e)

finishes-bind {ℓ κ} :
    {A : Type ℓ} {B : Type κ} (m : Outcome A) (f : A → Outcome B)
    → finishes m ≡ true
    → ((a : A) → finishes (f a) ≡ true)
    → finishes (m >>= f) ≡ true
unfolding finishes
finishes-bind (ok a) f h k = k a
finishes-bind (err e) f h k = h

finishes_choice {ℓ} :
    {A : Type ℓ} (b : Bool) (m n : Outcome A)
    → finishes m ≡ true
    → finishes n ≡ true
    → finishes (if b then m else n) ≡ true
finishes_choice true m n h g = h
finishes_choice false m n h g = g

finishes_unless {ℓ} :
    {A : Type ℓ} (b : Bool) (a : A) → finishes (if b then err undefined else ok a) ≡ true
unfolding finishes is_fuel
finishes_unless true a = refl
finishes_unless false a = refl

load-finishes : (w : Width) (m : MemoryMap) (addr : ℕ) → finishes (load w m addr) ≡ true
unfolding load finishes is_fuel
load-finishes w m addr =
    finishes-bind (shamt w (addr % 4)) _ (finishes_unless (ltb 4 (addr % 4 + size w)) _) (λ s. refl)

store-finishes :
    (w : Width) (m : MemoryMap) (addr value : ℕ) → finishes (store w m addr value) ≡ true
unfolding store finishes is_fuel
store-finishes w m addr value =
    finishes-bind (shamt w (addr % 4)) _ (finishes_unless (ltb 4 (addr % 4 + size w)) _) (λ s. refl)

at-finishes : (p : Program) (pc : ℕ) → finishes (at p pc) ≡ true
unfolding at finishes is_fuel
at-finishes p pc = elim (Option-cases (p.source pc)) [
  | inl e ↦ rw e refl
  | inr (instr, e) ↦ rw e refl
]

module _ (slot : ℕ → EmulatorState → Outcome EmulatorState) where
  plain_r-finishes :
      (op : OpcodeR) (x : InstructionR) (s : EmulatorState)
      → branches_r op ≡ false
      → finishes (dispatch_r slot op x s) ≡ true
  unfolding dispatch_r branches_r finishes is_fuel execute_div execute_divu execute_sll execute_sra
      execute_srl
  plain_r-finishes OpcodeR.jr x s h = cc
  plain_r-finishes OpcodeR.jalr x s h = cc
  plain_r-finishes OpcodeR.div x s h = finishes_unless (bad_division (reg s x.rs) (reg s x.rt)) _
  plain_r-finishes OpcodeR.divu x s h = finishes_unless (reg s x.rt == 0) _
  plain_r-finishes OpcodeR.sll x s h = finishes_unless (ltb 31 x.sa) _
  plain_r-finishes OpcodeR.sra x s h = finishes_unless (ltb 31 x.sa) _
  plain_r-finishes OpcodeR.srl x s h = finishes_unless (ltb 31 x.sa) _
  plain_r-finishes _ x s h = refl

  plain_i-finishes :
      (op : OpcodeI) (x : InstructionI) (s : EmulatorState)
      → branches_i op ≡ false
      → finishes (dispatch_i slot op x s) ≡ true
  unfolding dispatch_i branches_i finishes is_fuel execute_lb execute_lbu execute_lh execute_lhu
      execute_sb execute_sh
  plain_i-finishes OpcodeI.beq x s h = cc
  plain_i-finishes OpcodeI.bne x s h = cc
  plain_i-finishes OpcodeI.bgtz x s h = cc
  plain_i-finishes OpcodeI.blez x s h = cc
  plain_i-finishes OpcodeI.bgez x s h = cc
  plain_i-finishes OpcodeI.bgezal x s h = cc
  plain_i-finishes OpcodeI.bltz x s h = cc
  plain_i-finishes OpcodeI.bltzal x s h = cc
  plain_i-finishes OpcodeI.lb x s h =
      finishes-bind _ _ (load-finishes Width.byte s.mem _) (λ v. refl)
  plain_i-finishes OpcodeI.lbu x s h =
      finishes-bind _ _ (load-finishes Width.ubyte s.mem _) (λ v. refl)
  plain_i-finishes OpcodeI.lh x s h =
      finishes-bind _ _ (load-finishes Width.half s.mem _) (λ v. refl)
  plain_i-finishes OpcodeI.lhu x s h =
      finishes-bind _ _ (load-finishes Width.uhalf s.mem _) (λ v. refl)
  plain_i-finishes OpcodeI.sb x s h =
      finishes-bind _ _ (store-finishes Width.ubyte s.mem _ _) (λ v. refl)
  plain_i-finishes OpcodeI.sh x s h =
      finishes-bind _ _ (store-finishes Width.uhalf s.mem _ _) (λ v. refl)
  plain_i-finishes _ x s h = refl

  plain-finishes :
      (instr : Instruction) (s : EmulatorState)
      → is_branch_instr instr ≡ false
      → finishes (dispatch slot instr s) ≡ true
  unfolding dispatch is_branch_instr
  plain-finishes (r_type x) s h = plain_r-finishes x.op x s h
  plain-finishes (i_type x) s h = plain_i-finishes x.op x s h
  plain-finishes (j_type x) s h = cc

  jump-finishes :
      (target : ℕ) (s : EmulatorState)
      → finishes (slot (add32 s.pc 4) s) ≡ true
      → finishes (jump slot target s) ≡ true
  unfolding jump finishes
  jump-finishes target s e =
      finishes-bind _ _ (finishes_choice (valid_addr s.program (add32 s.pc 4)) _ (ok s) e refl)
        (λ s'. refl)

  branch_if-finishes :
      (b : Bool) (x : InstructionI) (s : EmulatorState)
      → finishes (slot (add32 s.pc 4) s) ≡ true
      → finishes (if b then branch slot x s else ok s) ≡ true
  unfolding branch finishes
  branch_if-finishes b x s e =
      finishes_choice b _ (ok s) (jump-finishes (branch_target s.pc x.constant) s e) refl

  module _ (s : EmulatorState) (here : finishes (slot (add32 s.pc 4) s) ≡ true)
      (linked : (r : Register) → finishes (slot (add32 s.pc 4) (link r s)) ≡ true) where
    branch_r-finishes :
        (op : OpcodeR) (x : InstructionR)
        → branches_r op ≡ true
        → finishes (dispatch_r slot op x s) ≡ true
    unfolding dispatch_r branches_r execute_jr execute_jalr link set_reg
    branch_r-finishes OpcodeR.jr x h = jump-finishes _ s here
    branch_r-finishes OpcodeR.jalr x h = jump-finishes _ _ (linked x.rd)
    branch_r-finishes _ x h = cc

    branch_i-finishes :
        (op : OpcodeI) (x : InstructionI)
        → branches_i op ≡ true
        → finishes (dispatch_i slot op x s) ≡ true
    unfolding dispatch_i branches_i execute_beq execute_bgtz execute_blez execute_bne execute_bgez
        execute_bgezal execute_bltz execute_bltzal link set_reg
    branch_i-finishes OpcodeI.beq x h = branch_if-finishes _ x s here
    branch_i-finishes OpcodeI.bne x h = branch_if-finishes _ x s here
    branch_i-finishes OpcodeI.bgtz x h = branch_if-finishes _ x s here
    branch_i-finishes OpcodeI.blez x h = branch_if-finishes _ x s here
    branch_i-finishes OpcodeI.bgez x h = branch_if-finishes _ x s here
    branch_i-finishes OpcodeI.bltz x h = branch_if-finishes _ x s here
    branch_i-finishes OpcodeI.bgezal x h = branch_if-finishes _ x _ (linked ra)
    branch_i-finishes OpcodeI.bltzal x h = branch_if-finishes _ x _ (linked ra)
    branch_i-finishes _ x h = cc

    branch_j-finishes : (op : OpcodeJ) (x : InstructionJ) → finishes (dispatch_j slot op x s) ≡ true
    unfolding dispatch_j execute_j execute_jal link set_reg finishes is_fuel
    branch_j-finishes OpcodeJ.j x = jump-finishes _ s here
    branch_j-finishes OpcodeJ.jal x = jump-finishes _ _ (linked ra)
    branch_j-finishes (OpcodeJ.unnamed n) x = refl

    dispatch-finishes : (instr : Instruction) → finishes (dispatch slot instr s) ≡ true
    unfolding dispatch
    dispatch-finishes (r_type x) = elim (Bool-cases (branches_r x.op)) [
      | inl h ↦ branch_r-finishes x.op x h
      | inr h ↦ plain_r-finishes x.op x s h
    ]
    dispatch-finishes (i_type x) = elim (Bool-cases (branches_i x.op)) [
      | inl h ↦ branch_i-finishes x.op x h
      | inr h ↦ plain_i-finishes x.op x s h
    ]
    dispatch-finishes (j_type x) = branch_j-finishes x.op x

slot-finishes : (s : EmulatorState) → PlainSlot s → finishes (execute 1 (add32 s.pc 4) s) ≡ true
unfolding execute at finishes is_fuel
slot-finishes s plain = elim (Option-cases (s.program.source (add32 s.pc 4))) [
  | inl e ↦ rw e refl
  | inr (instr, e) ↦ rw e (plain-finishes (execute 0) instr s (plain instr e))
]

step-finishes : (s : EmulatorState) → PlainSlot s → (pc : ℕ) → finishes (execute 2 pc s) ≡ true
unfolding execute
step-finishes s plain pc = finishes-bind (at s.program pc) _ (at-finishes s.program pc) (
    dispatch-finishes (execute 1) s (slot-finishes s plain)
      (λ r. unfold link in unfold set_reg in slot-finishes _ plain))

-- If the delay slot at the program counter holds no branch, two or more nested calls of `execute`
-- are enough: it returns or fails, and does not run out of fuel.
pub execute-finishes :
    (fuel pc : ℕ) (s : EmulatorState)
    → PlainSlot s
    → execute (suc (suc fuel)) pc s ≢ err out_of_fuel
unfolding finishes is_fuel
execute-finishes fuel pc s plain e =
    let f = step-finishes s plain pc in
    let k = execute-fuel fuel pc s plain in let h = ap finishes (sym k ∙ e) in cc

source-valid_addr :
    (p : Program) (addr : ℕ) (instr : Instruction)
    → p.source addr ≡ some instr
    → valid_addr p addr ≡ true
unfolding valid_addr
source-valid_addr p addr instr h = rw h refl

-- If the delay slot at the program counter holds a `j`, executing that slot calls itself: no
-- number of nested calls is enough.
pub execute-slot_jump :
    (fuel : ℕ) (x : InstructionJ) (s : EmulatorState)
    → x.op ≡ OpcodeJ.j
    → s.program.source (add32 s.pc 4) ≡ some (j_type x)
    → execute fuel (add32 s.pc 4) s ≡ err out_of_fuel
unfolding execute at dispatch dispatch_j execute_j jump
execute-slot_jump zero x s e h = refl
execute-slot_jump (suc fuel) x s e h =
    rw
      (
        h,
        e,
        execute-slot_jump fuel x s e h,
        source-valid_addr s.program (add32 s.pc 4) (j_type x) h,
      )
      refl
