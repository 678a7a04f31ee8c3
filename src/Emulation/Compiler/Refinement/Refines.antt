-- ===== src/Emulation/Compiler/Refinement/Refines.antt =====
-- When the code of a step of src/emulation/compiler.cpp does what a handler of
-- src/emulation/interpreter_core.cpp does.
use ji_tboy.Base.{ℕ, ◌≡◌, ◌⊎◌, refl, sym, ◌∙◌, ap, inl, inr, List, Outcome, ok, err, Holds, Fault}
use mathlib.Core.Path.{subst}
use ji_tboy.Mips.RegisterFile.{RegisterFile}
use ji_tboy.Mips.RegisterFile.Laws.{IsRegisters}
use ji_tboy.X86.Processor.{Machine, Flags, Instr}
use ji_tboy.Emulation.State.{EmulatorState}
use ji_tboy.Emulation.Compiler.{Step}
use ji_tboy.Emulation.Compiler.Codes.{Codes}
use ji_tboy.Emulation.Compiler.Views.{View, IsBase, Runs}
use ji_tboy.Emulation.Compiler.Translates.{Effects, EffectsWhen, Translates, TranslatesWhen}

-- Run on the registers of `s`, the code leaves those of `s'`, and `s'` differs in nothing else.
pub record Simulates (is : List Instr) (s s' : EmulatorState) : Type 0 where
  pub runs :
      (other : Machine → Flags) (base : ℕ) (b : IsBase base) (v : View)
      → v.file ≡ s.regs
      → (w : View) × Runs other base b v is w × (w.file ≡ s'.regs) × (w.stack ≡ v.stack)
  pub same_mem : s'.mem ≡ s.mem
  pub same_program : s'.program ≡ s.program
  pub same_pc : s'.pc ≡ s.pc

-- The step succeeds from any compiler, and its code does to valid registers what the handler `h` does,
-- where that has a result.
unfoldable pub Refines : Step → (EmulatorState → Outcome EmulatorState) → Type 0
Refines m h =
    (is : List Instr) × Codes is m
    × ((s : EmulatorState) → IsRegisters s.regs → Holds (Simulates is s) (h s))

abbrev pub with_regs : EmulatorState → RegisterFile → EmulatorState
with_regs s g = record s { regs = g }

simulate :
    (is : List Instr) (g : RegisterFile → RegisterFile) (s : EmulatorState) (f : RegisterFile)
    → Effects is g
    → IsRegisters s.regs
    → g s.regs ≡ f
    → Simulates is s (with_regs s f)
unfolding Effects
simulate is g s f effects h e = record {
  runs = λ other base b v same.
      let (w, runs, file, stack) = effects other base b v (subst IsRegisters (sym same) h) in
      (w, runs, file ∙ ap g same ∙ e, stack);
  same_mem = refl;
  same_program = refl;
  same_pc = refl;
}

pub refine :
    (m : Step) (g : RegisterFile → RegisterFile) (h : EmulatorState → Outcome EmulatorState)
    → Translates m g
    → ((s : EmulatorState)
        → IsRegisters s.regs
        → (f : RegisterFile) × (h s ≡ ok (with_regs s f)) × (g s.regs ≡ f))
    → Refines m h
unfolding Translates Refines
refine m g h (is, codes, effects) k = (
  is,
  codes,
  λ s v.
      let (f, e, same) = k s v in
      subst (Holds (Simulates is s)) (sym e) (simulate is g s f effects v same),
)

-- The same for a handler that has no result where the condition does not hold
pub refine_when :
    (p : RegisterFile → Type 0) (m : Step) (g : RegisterFile → RegisterFile)
    (h : EmulatorState → Outcome EmulatorState)
    → TranslatesWhen p m g
    → ((s : EmulatorState)
        → IsRegisters s.regs
        → ((e : Fault) × (h s ≡ err e))
          ⊎ ((f : RegisterFile) × p s.regs × (h s ≡ ok (with_regs s f)) × (g s.regs ≡ f)))
    → Refines m h
unfolding TranslatesWhen EffectsWhen Refines
refine_when p m g h (is, codes, effects) k = (
  is,
  codes,
  λ s v. elim (k s v) [
    | inl (_, e) ↦ subst (Holds (Simulates is s)) (sym e) tt
    | inr (f, c, e, same) ↦ subst (Holds (Simulates is s)) (sym e) (record {
      runs = λ other base b w shown.
          let (u, runs, file, stack) =
            effects other base b w (subst IsRegisters (sym shown) v) (subst p (sym shown) c) in
          (u, runs, file ∙ ap g shown ∙ same, stack);
      same_mem = refl;
      same_program = refl;
      same_pc = refl;
    })
  ],
)
