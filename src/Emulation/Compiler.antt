-- ===== src/Emulation/Compiler.antt =====
-- The compiler of blocks to host code: src/emulation/compiler.hpp, compiler.cpp. A method is a step from compiler to compiler; the debug stream is left out.
pub mod Registers
pub mod Arithmetic
pub mod MemoryAccess
pub mod Control
pub mod Dispatch
pub mod Block
pub mod Codes
pub mod Accesses
pub mod Views
pub mod Moves
pub mod Translates
pub mod Room
pub mod Nesting
pub mod Refinement
use ji_tboy.Base.{ℕ, Bool, false, List, [], Option, none, Outcome, ok, ◌>>=◌}
use ji_tboy.X86.Isa.{CondCode, Register, eax, ecx, edx}
use ji_tboy.X86.Assembler.{Assembler}
use ji_tboy.X86.Assembler.{reset as reset_assembler}
use ji_tboy.X86.Linker.{Linker, Label}
use ji_tboy.Memory.ExecutableAllocator.{ExecutableAllocator}
use ji_tboy.Memory.DynamicExecutableAllocator.{DynamicExecutableAllocator}
use ji_tboy.Emulation.SourceBlock.{SourceBlock}
use ji_tboy.Emulation.CompilerConfig.{CompilerConfig}

-- `Compiler::State`
pub record State : Type 0 where
  pub config : CompilerConfig
  pub source : Option SourceBlock
  pub terminated : Bool
  pub unresolved_jumps : List (ℕ × ℕ)
  pub unresolved_cond_jumps : List (ℕ × CondCode × ℕ × ℕ)

pub record Compiler : Type 0 where
  pub allocator : DynamicExecutableAllocator
  pub linker : Linker
  pub assembler : Assembler
  pub state : State

-- What the host process fixes: the addresses of the guest's register file, of the guest's memory
-- and of the functions that labels name, and where the operating system places partitions.
pub record Host : Type 0 where
  pub reg_file : ℕ
  pub mem : ℕ
  pub function : Label → ℕ
  pub page_size : ℕ
  pub base_address : ℕ → ℕ
  pub place : List ExecutableAllocator → ℕ

abbrev pub Step : Type 0
Step = Compiler → Outcome Compiler

abbrev pub return_reg : Register
return_reg = eax

abbrev pub addr_reg : Register
addr_reg = ecx

abbrev pub acc1_reg : Register
acc1_reg = eax

abbrev pub acc2_reg : Register
acc2_reg = edx

-- A call on `_assembler`
unfoldable pub emit : (Assembler → Outcome Assembler) → Step
emit f c = f c.assembler >>= λ a. ok (record c { assembler = a })

-- One step and then another
infixr 6 ◌⨟◌
unfoldable pub ◌⨟◌ : Step → Step → Step
(f ⨟ g) c = f c >>= g

unfoldable pub skip : Step
skip c = ok c

abbrev pub initial_state : State
initial_state = record {
  config = record { o_level = 0; direct_linking = false };
  source = none;
  terminated = false;
  unresolved_jumps = [];
  unresolved_cond_jumps = [];
}

unfoldable pub reset : Compiler → Compiler
unfolding reset_assembler
reset c = record c { assembler = reset_assembler c.assembler; state = initial_state }
