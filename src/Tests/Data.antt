-- ===== src/Tests/Data.antt =====
-- A program of a branch, its delay slot and a jump with an empty slot, and a state that runs it.
use ji_tboy.Base.{
  ℕ, zero, suc, ◌+◌, ◌*◌, ◌≡◌, refl, arith, Bool, true, false, ◌⊎◌, inl, inr, ◌==◌, if◌then◌else◌,
  Option, some, none, Bool-cases, ◌<◌, set, replicate, leb,
}
use ji_tboy.Mips.Isa.{
  OpcodeR, OpcodeI, OpcodeJ, Instruction, i_type, j_type, InstructionR, InstructionI, InstructionJ,
}
use ji_tboy.Mips.RegisterFile.{initial}
use ji_tboy.Mips.RegisterFile.Laws.{initial-IsRegisters}
use ji_tboy.Mips.MemoryMap.{empty}
use ji_tboy.Mips.MemoryMap.Bytes.{IsWords}
use ji_tboy.Mips.Program.{Program}
use ji_tboy.Emulation.State.{EmulatorState}
use ji_tboy.Emulation.Guest.{IsGuest, IsProgram, ConstantFits}
use ji_tboy.Mips.Classify.{is_branch_instr}
use ji_tboy.Emulation.Interpreter.{Interpreter}
use ji_tboy.Emulation.InterpreterCore.DelaySlot.{PlainSlot}
use ji_tboy.Emulation.BlockPartitioner.Body.{IsBelow}
use ji_tboy.Emulation.BlockPartitioner.Blocks.{IsBlock}
use ji_tboy.Emulation.SourceBlock.{SourceBlock}

-- `beq $zero, $zero, 2`
abbrev pub beq_2 : InstructionI
beq_2 = record { op = OpcodeI.beq; rt = 0; rs = 0; constant = 2 }

-- `addi $t0, $zero, 5`
abbrev pub addi_5 : InstructionI
addi_5 = record { op = OpcodeI.addi; rt = 8; rs = 0; constant = 5 }

-- `addu $t1, $t0, $t0`
abbrev pub addu_8 : InstructionR
addu_8 = record { op = OpcodeR.addu; rd = 9; rs = 8; rt = 8; sa = 0 }

-- `j 16`
abbrev pub j_4 : InstructionJ
j_4 = record { op = OpcodeJ.j; target = 4 }

abbrev pub branching : Program
branching = record {
  source =
      λ a. if a == 0 then some (i_type beq_2) else (if a == 4 then some (i_type addi_5) else none);
  entry_point = 0;
}

abbrev pub start : EmulatorState
start = record { regs = initial; mem = empty; program = branching; pc = 0 }

abbrev pub interpreter : Interpreter
interpreter = record { state = start; executed_instructions = 0 }

choice_some {ℓ} :
    {A : Type ℓ} (b : Bool) (x i : A) (o : Option A)
    → (if b then some x else o) ≡ some i
    → (x ≡ i) ⊎ (o ≡ some i)
choice_some true x i o h = inl cc
choice_some false x i o h = inr h

fits_2 :
    (x y instr : Instruction) (b c : Bool)
    → ConstantFits x
    → ConstantFits y
    → (if b then some x else (if c then some y else none)) ≡ some instr
    → ConstantFits instr
fits_2 x y instr true c f g h = let e : x ≡ instr = cc in rw⁻¹ e f
fits_2 x y instr false true f g h = let e : y ≡ instr = cc in rw⁻¹ e g
fits_2 x y instr false false f g h = cc

pub branching-IsProgram : IsProgram branching
branching-IsProgram addr instr h =
    fits_2 (i_type beq_2) (i_type addi_5) instr (addr == 0) (addr == 4) (omega arith) (omega arith)
      h

pub empty-IsWords : IsWords empty
empty-IsWords a = omega arith

pub start-IsGuest : IsGuest branching start
start-IsGuest = record {
  registers = initial-IsRegisters;
  words = empty-IsWords;
  pc_fits = omega arith;
  same_program = refl;
}

-- After the branch and its delay slot: `$t0` holds 5, and the program is left at 8.
abbrev pub finish : EmulatorState
finish = record {
  regs = record { regs = set (replicate 34 0) 8 5 };
  mem = empty;
  program = branching;
  pc = 8;
}

abbrev pub finished : Interpreter
finished = record { state = finish; executed_instructions = 1 }

-- A jump in the delay slot of whatever stands at 0.
abbrev pub slot_jumping : EmulatorState
slot_jumping = record {
  regs = initial;
  mem = empty;
  program = record { source = λ a. if a == 4 then some (j_type j_4) else none; entry_point = 0 };
  pc = 0;
}

is_some_unique :
    (x instr : Instruction)
    → is_branch_instr x ≡ false
    → some x ≡ some instr
    → is_branch_instr instr ≡ false
is_some_unique x instr h e = let f : x ≡ instr = cc in rw⁻¹ f h

pub start-PlainSlot : PlainSlot start
unfolding is_branch_instr
start-PlainSlot instr h = is_some_unique (i_type addi_5) instr refl h

below_8 :
    (x y instr : Instruction) (addr : ℕ)
    → (if addr == 0 then some x else (if addr == 4 then some y else none)) ≡ some instr
    → addr < 8
below_8 x y instr addr h = elim (Bool-cases (leb addr 4)) [
  | inl e ↦ ground (arith, e)
  | inr e ↦
      let f : (addr == 0) ≡ false = ground (arith, e) in
      let g : (addr == 4) ≡ false = ground (arith, e) in cc
]

pub branching-IsBelow : IsBelow 8 branching
branching-IsBelow = record {
  bound = λ addr instr h. below_8 (i_type beq_2) (i_type addi_5) instr addr h;
  fits = omega arith;
}

abbrev pub whole : SourceBlock
whole = record { program = branching; start_addr = 0; end_addr = 8 }

whole_inside : (k : ℕ) → k < 2 → (i : Instruction) × (branching.source (0 + 4 * k) ≡ some i)
whole_inside zero h = (i_type beq_2, refl)
whole_inside (suc zero) h = (i_type addi_5, refl)
whole_inside (suc (suc k)) h = absurd (omega arith)

pub whole-IsBlock : IsBlock branching 0 whole
whole-IsBlock = record {
  count = 2;
  program = refl;
  starts = refl;
  ends = refl;
  inside = whole_inside;
  straight = λ k i h e. absurd (omega arith);
  complete = λ next e. cc;
}
