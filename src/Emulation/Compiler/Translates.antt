-- ===== src/Emulation/Compiler/Translates.antt =====
-- When a step of src/emulation/compiler.cpp is a translation: the processor that runs its code changes
-- the guest's registers as the instruction does.
use ji_tboy.Base.{
  ℕ, ◌≡◌, ◌≢◌, refl, arith, List, [], ◌==◌, ==-ne, if◌then◌else◌, Bool-cases, inl, inr,
}
use ji_tboy.Mips.Isa.{Register}
use ji_tboy.Mips.RegisterFile.{RegisterFile, write, assign}
use ji_tboy.Mips.RegisterFile.Laws.{IsRegisters}
use ji_tboy.X86.Processor.{Machine, Flags, Instr}
use ji_tboy.Emulation.Compiler.{Step, skip}
use ji_tboy.Emulation.Compiler.Codes.{Codes, skip-Codes}
use ji_tboy.Emulation.Compiler.Views.{View, IsBase, Runs, Runs-nil}

-- The instructions take a view with the registers `f` to one with the registers `g`, and leave the
-- stack, whatever the flags are that other instructions than CMP set, and wherever the file lies.
unfoldable pub Effects : List Instr → (RegisterFile → RegisterFile) → Type 0
Effects is g =
    (other : Machine → Flags) (base : ℕ) (b : IsBase base) (v : View)
    → IsRegisters v.file
    → (w : View) × Runs other base b v is w × (w.file ≡ g v.file) × (w.stack ≡ v.stack)

-- The step succeeds from any compiler, and the code that it appends has this effect.
unfoldable pub Translates : Step → (RegisterFile → RegisterFile) → Type 0
Translates m g = (is : List Instr) × Codes is m × Effects is g

-- The same from registers that satisfy a condition
unfoldable pub EffectsWhen :
    (RegisterFile → Type 0) → List Instr → (RegisterFile → RegisterFile) → Type 0
EffectsWhen p is g =
    (other : Machine → Flags) (base : ℕ) (b : IsBase base) (v : View)
    → IsRegisters v.file
    → p v.file
    → (w : View) × Runs other base b v is w × (w.file ≡ g v.file) × (w.stack ≡ v.stack)

unfoldable pub TranslatesWhen :
    (RegisterFile → Type 0) → Step → (RegisterFile → RegisterFile) → Type 0
TranslatesWhen p m g = (is : List Instr) × Codes is m × EffectsWhen p is g

pub skip-Translates : Translates skip (λ f. f)
unfolding Translates Effects
skip-Translates = ([], skip-Codes, λ other base b v h. (v, Runs-nil other base b v, refl, refl))

-- The guard against `$zero`: no code, and no change, where the destination is `$zero`.
pub unless_zero :
    (rd : Register) (m : Step) (g : RegisterFile → ℕ)
    → (rd ≢ 0 → Translates m (λ f. assign f rd (g f)))
    → Translates (if rd == 0 then skip else m) (λ f. write f rd (g f))
unfolding write assign
unless_zero rd m g k = elim (Bool-cases (rd == 0)) [
  | inl z ↦ rw z skip-Translates
  | inr z ↦ rw z (k (ground (arith, z)))
]

pub write_nonzero : (f : RegisterFile) (r a : ℕ) → r ≢ 0 → write f r a ≡ assign f r a
unfolding write assign
write_nonzero f r a n = rw (==-ne r 0 n) refl
