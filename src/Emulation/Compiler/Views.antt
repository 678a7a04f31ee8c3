-- ===== src/Emulation/Compiler/Views.antt =====
-- What the processor's registers and memory hold of the guest while it runs the code of
-- src/emulation/compiler.cpp: ECX holds the address of the register file, whose words are the guest's
-- registers. `View` is what is known of the machine besides.
use ji_tboy.Base.{
  ℕ, ◌+◌, ◌*◌, ◌≡◌, ◌≢◌, ◌<◌, refl, sym, ◌∙◌, ap, arith, ◌==◌, if◌then◌else◌, Option-cases, inl,
  inr, List, [], ◌∷◌, ◌++◌, length, Option, none, some, add32, get_or-set_self, get_or-set_ne,
  length-set,
}
use ji_tboy.Mips.Isa.{Register as MipsRegister}
use ji_tboy.Mips.RegisterFile.{RegisterFile, read, assign}
use ji_tboy.X86.Processor.{
  Machine, Flags, Slot, Instr, Operand, reg, get, put, update, run, step, and_then,
}
use ji_tboy.Emulation.Compiler.Registers.{calc_reg_offset}
use ji_tboy.Emulation.Compiler.Codes.{guest}

pub record View : Type 0 where
  pub file : RegisterFile
  pub eax : ℕ
  pub edx : ℕ
  pub stack : List Slot
  -- the flags, where the code goes on to read them
  pub flags : Option Flags

unfoldable pub AreFlags : Option Flags → Flags → Type 0
AreFlags none f = Unit
AreFlags (some g) f = f ≡ g

-- The machine shows the view, with the register file at `base`.
pub record Shows (base : ℕ) (v : View) (m : Machine) : Type 0 where
  pub size : length v.file.regs ≡ 34
  pub in_ecx : m.regs 1 ≡ base
  pub cells : (r : MipsRegister) → r < 34 → m.words (base + r * 4) ≡ read v.file r
  pub in_eax : m.regs 0 ≡ v.eax
  pub in_edx : m.regs 2 ≡ v.edx
  pub on_stack : m.stack ≡ v.stack
  pub known_flags : AreFlags v.flags m.flags

-- What the code works on, besides ECX: guest registers and two registers of the host
pub data Place : Type 0 where
  at_guest : MipsRegister → Place
  at_eax : Place
  at_edx : Place

abbrev pub operand_of : Place → Operand
operand_of (at_guest r) = guest r
operand_of at_eax = reg 0
operand_of at_edx = reg 2

abbrev pub IsPlace : Place → Type 0
IsPlace (at_guest r) = r < 34
IsPlace _ = Unit

abbrev pub value : Place → View → ℕ
value (at_guest r) v = read v.file r
value at_eax v = v.eax
value at_edx v = v.edx

abbrev pub assign_at : Place → ℕ → View → View
assign_at (at_guest r) x v = record v { file = assign v.file r x }
assign_at at_eax x v = record v { eax = x }
assign_at at_edx x v = record v { edx = x }

-- The 34 words from `base` on end below the top of the address space.
unfoldable pub IsBase : ℕ → Type 0
IsBase base = base + 136 < 0x1_0000_0000

run-append :
    (other : Machine → Flags) (is js : List Instr) (m : Machine)
    → run other (is ++ js) m ≡ and_then (run other is m) (run other js)
unfolding run
run-append other [] js m = refl
run-append other (i ∷ is) js m = elim (Option-cases (step other i m)) [
  | inl e ↦ rw e refl
  | inr (m', e) ↦ rw e (run-append other is js m')
]

module _ (other : Machine → Flags) (base : ℕ) (b : IsBase base) where
  -- From a machine that shows `v`, the code runs to its end and the machine then shows `w`.
  unfoldable pub Runs : View → List Instr → View → Type 0
  Runs v is w =
      (m : Machine) → Shows base v m → (m' : Machine) × (run other is m ≡ some m') × Shows base w m'

  -- One instruction, in the same sense
  unfoldable pub Does : View → Instr → View → Type 0
  Does v i w =
      (m : Machine) → Shows base v m → (m' : Machine) × (step other i m ≡ some m') × Shows base w m'

  pub Runs-nil : (v : View) → Runs v [] v
  unfolding Runs run
  Runs-nil v m s = (m, refl, s)

  pub Runs-cons :
      (u v w : View) (i : Instr) (is : List Instr) → Does u i v → Runs v is w → Runs u (i ∷ is) w
  unfolding Runs Does run
  Runs-cons u v w i is k l m s =
      let (m₁, e, t) = k m s in
      let (m₂, f, q) = l m₁ t in (m₂, ap (λ o. and_then o (run other is)) e ∙ f, q)

  -- Code and then more code
  pub Runs-append :
      (u v w : View) (is js : List Instr) → Runs u is v → Runs v js w → Runs u (is ++ js) w
  unfolding Runs
  Runs-append u v w is js k l m s =
      let (m₁, e, t) = k m s in
      let (m₂, f, q) = l m₁ t in
      (m₂, run-append other is js m ∙ ap (λ o. and_then o (run other js)) e ∙ f, q)

  address-guest :
      (v : View) (m : Machine) (r : MipsRegister)
      → Shows base v m
      → r < 34
      → add32 (m.regs 1) (calc_reg_offset r) ≡ base + r * 4
  unfolding IsBase calc_reg_offset
  address-guest v m r s h = let e = s.in_ecx in omega arith

  pub get-guest :
      (v : View) (m : Machine) (r : MipsRegister)
      → Shows base v m
      → r < 34
      → get (guest r) m ≡ read v.file r
  unfolding get
  get-guest v m r s h = ap m.words (address-guest v m r s h) ∙ s.cells r h

  read-assign :
      (f : RegisterFile) (r q : MipsRegister) (value : ℕ)
      → length f.regs ≡ 34
      → r < 34
      → read (assign f r value) q ≡ (if r == q then value else read f q)
  unfolding read assign
  read-assign f r q value size h =
      ground (arith, size, get_or-set_self f.regs r value 0, get_or-set_ne f.regs r q value 0)

  cell-ne : (r q : MipsRegister) → r ≢ q → base + r * 4 ≢ base + q * 4
  cell-ne r q n = λ e. n (omega arith)

  pub put-cell :
      (v : View) (m : Machine) (r q : MipsRegister) (value : ℕ)
      → Shows base v m
      → r < 34
      → q < 34
      → update m.words (add32 (m.regs 1) (calc_reg_offset r)) value (base + q * 4)
        ≡ read (assign v.file r value) q
  unfolding update
  put-cell v m r q value s h g =
      ap (λ a. if a == (base + q * 4) then value else m.words (base + q * 4))
        (address-guest v m r s h)
      ∙ ap (λ w. if (base + r * 4) == (base + q * 4) then value else w) (s.cells q g)
      ∙ ap (λ c. if c then value else read v.file q) {x = (base + r * 4) == (base + q * 4)}
          {y = r == q} (ground arith)
      ∙ sym (read-assign v.file r q value s.size h)

  -- A write to the place of a guest register
  pub put-guest :
      (v : View) (m : Machine) (r : MipsRegister) (value : ℕ)
      → Shows base v m
      → r < 34
      → Shows base (record v { file = assign v.file r value }) (put (guest r) value m)
  unfolding put update assign
  put-guest v m r value s h = record {
    size = length-set v.file.regs r value ∙ s.size;
    in_ecx = s.in_ecx;
    cells = λ q g. put-cell v m r q value s h g;
    in_eax = s.in_eax;
    in_edx = s.in_edx;
    on_stack = s.on_stack;
    known_flags = s.known_flags;
  }

  pub set-flags :
      (v : View) (m : Machine) (f : Flags) (g : Option Flags)
      → AreFlags g f
      → Shows base v m
      → Shows base (record v { flags = g }) (record m { flags = f })
  set-flags v m f g e s = record {
    size = s.size;
    in_ecx = s.in_ecx;
    cells = s.cells;
    in_eax = s.in_eax;
    in_edx = s.in_edx;
    on_stack = s.on_stack;
    known_flags = e;
  }

  pub get-place :
      (p : Place) (v : View) (m : Machine)
      → Shows base v m
      → IsPlace p
      → get (operand_of p) m ≡ value p v
  unfolding get
  get-place (at_guest r) v m s h = get-guest v m r s h
  get-place at_eax v m s h = s.in_eax
  get-place at_edx v m s h = s.in_edx

  pub put-place :
      (p : Place) (v : View) (m : Machine) (x : ℕ)
      → Shows base v m
      → IsPlace p
      → Shows base (assign_at p x v) (put (operand_of p) x m)
  unfolding put update
  put-place (at_guest r) v m x s h = put-guest v m r x s h
  put-place at_eax v m x s h = record {
    size = s.size;
    in_ecx = s.in_ecx;
    cells = s.cells;
    in_eax = refl;
    in_edx = s.in_edx;
    on_stack = s.on_stack;
    known_flags = s.known_flags;
  }
  put-place at_edx v m x s h = record {
    size = s.size;
    in_ecx = s.in_ecx;
    cells = s.cells;
    in_eax = s.in_eax;
    in_edx = refl;
    on_stack = s.on_stack;
    known_flags = s.known_flags;
  }
