-- ===== src/Emulation/InterpreterCore/Frame.antt =====
-- What an instruction that is no branch leaves alone, and how the program counter moves:
-- src/emulation/interpreter_core.cpp against src/mips/utils.cpp.
use ji_tboy.Base.{
  ℕ, suc, ◌<◌, ◌≡◌, sym, ◌∙◌, ap, arith, Bool, true, false, ◌==◌, Outcome, ok, Holds, Holds-bind,
  Holds-weaken, add32, get_or-set_ne,
}
use ji_tboy.Mips.Isa.{Instruction, Register}
use ji_tboy.Mips.RegisterFile.{RegisterFile, read, write}
use ji_tboy.Mips.Program.{at}
use ji_tboy.Mips.Classify.{is_branch_instr, writes_reg, is_nop}
use ji_tboy.Emulation.State.{EmulatorState, reg, set_reg}
use ji_tboy.Emulation.InterpreterCore.{dispatch, execute, execute_current}
use ji_tboy.Emulation.InterpreterCore.Effect.{
  Effect, to_reg, to_hi_lo, to_mem, is_store, dispatch-Effect,
}

read-write_ne :
    (f : RegisterFile) (r q : Register) (value : ℕ)
    → (q == r) ≡ false
    → read (write f r value) q ≡ read f q
unfolding read write
read-write_ne f r q value h = ground (arith, get_or-set_ne f.regs r q value 0)

write_nop : (f : RegisterFile) (r : Register) (value : ℕ) → (0 == r) ≡ true → write f r value ≡ f
unfolding write
write_nop f r value h = ground arith

module _ {writes : Register → Bool} {stores : Bool} {s s' : EmulatorState} where
  pub Effect-pc : Effect writes stores s s' → s'.pc ≡ s.pc
  unfolding set_reg
  Effect-pc (to_reg r value w e) = ap (λ t. t.pc) e
  Effect-pc (to_hi_lo f w k e) = ap (λ t. t.pc) e
  Effect-pc (to_mem m w e) = ap (λ t. t.pc) e

  Effect-reg :
      Effect writes stores s s' → (q : Register) → q < 32 → writes q ≡ false → reg s' q ≡ reg s q
  unfolding set_reg reg
  Effect-reg (to_reg r value w e) q h n =
      ap (λ t. read t.regs q) e ∙ read-write_ne s.regs r q value (sym (w q) ∙ n)
  Effect-reg (to_hi_lo f w k e) q h n = ap (λ t. read t.regs q) e ∙ k q h
  Effect-reg (to_mem m w e) q h n = ap (λ t. read t.regs q) e

  Effect-mem : Effect writes stores s s' → stores ≡ false → s'.mem ≡ s.mem
  unfolding set_reg
  Effect-mem (to_reg r value w e) h = ap (λ t. t.mem) e
  Effect-mem (to_hi_lo f w k e) h = ap (λ t. t.mem) e
  Effect-mem (to_mem m w e) h = cc

  Effect-nop : Effect writes stores s s' → stores ≡ false → writes 0 ≡ true → s' ≡ s
  unfolding set_reg write
  Effect-nop (to_reg r value w e) h z =
      e ∙ ap (λ f. record s { regs = f }) (write_nop s.regs r value (sym (w 0) ∙ z))
  Effect-nop (to_hi_lo f w k e) h z = let n = w 0 in cc
  Effect-nop (to_mem m w e) h z = cc

module _ (slot : ℕ → EmulatorState → Outcome EmulatorState) (instr : Instruction)
    (s : EmulatorState) (no_branch : is_branch_instr instr ≡ false) where
  -- An instruction that is no branch, when its handler returns, has left alone every general
  -- register for which `writes_reg` is false.
  pub dispatch-keeps_reg :
      (q : Register)
      → q < 32
      → writes_reg instr q ≡ false
      → Holds (λ s'. reg s' q ≡ reg s q) (dispatch slot instr s)
  dispatch-keeps_reg q h w =
      Holds-weaken (Effect (writes_reg instr) (is_store instr) s) (λ s'. reg s' q ≡ reg s q)
        (dispatch slot instr s) (λ s' e. Effect-reg e q h w)
        (dispatch-Effect slot instr s no_branch)

  pub dispatch-keeps_pc : Holds (λ s'. s'.pc ≡ s.pc) (dispatch slot instr s)
  dispatch-keeps_pc =
      Holds-weaken (Effect (writes_reg instr) (is_store instr) s) (λ s'. s'.pc ≡ s.pc)
        (dispatch slot instr s) (λ s' e. Effect-pc e) (dispatch-Effect slot instr s no_branch)

  -- An instruction that is no branch and no store, when its handler returns, has left memory
  -- alone.
  pub dispatch-keeps_mem :
      is_store instr ≡ false → Holds (λ s'. s'.mem ≡ s.mem) (dispatch slot instr s)
  dispatch-keeps_mem w =
      Holds-weaken (Effect (writes_reg instr) (is_store instr) s) (λ s'. s'.mem ≡ s.mem)
        (dispatch slot instr s) (λ s' e. Effect-mem e w) (dispatch-Effect slot instr s no_branch)

  -- An instruction for which `is_nop` holds and that is no branch and no store, when its handler
  -- returns, has changed nothing.
  pub is_nop-dispatch :
      is_store instr ≡ false → is_nop instr ≡ true → Holds (λ s'. s' ≡ s) (dispatch slot instr s)
  unfolding is_nop
  is_nop-dispatch w n =
      Holds-weaken (Effect (writes_reg instr) (is_store instr) s) (λ s'. s' ≡ s)
        (dispatch slot instr s) (λ s' e. Effect-nop e w n) (dispatch-Effect slot instr s no_branch)

-- An instruction that is no branch moves the program counter to the next word.
pub execute_current-next :
    (fuel : ℕ) (instr : Instruction) (s : EmulatorState)
    → is_branch_instr instr ≡ false
    → at s.program s.pc ≡ ok instr
    → Holds (λ s'. s'.pc ≡ add32 s.pc 4) (execute_current (suc fuel) s)
unfolding execute_current execute
execute_current-next fuel instr s no_branch e = rw e (
    Holds-bind (λ s'. s'.pc ≡ s.pc) (λ s'. s'.pc ≡ add32 s.pc 4) (dispatch (execute fuel) instr s)
      (λ s'. ok (record s' { pc = add32 s'.pc 4 }))
      (dispatch-keeps_pc (execute fuel) instr s no_branch) (λ s' h. ap (λ pc. add32 pc 4) h))
