-- ===== src/Emulation/CompiledBlock.antt =====
-- Compiled blocks and their jumps that are not linked yet: src/emulation/compiled_block.hpp,
-- unconditional_jump.hpp and conditional_jump.hpp. A pointer into the host's code is an address.
use ji_tboy.Base.{ℕ, List, Option}
use ji_tboy.X86.Isa.{CondCode}
use ji_tboy.Emulation.CompilerConfig.{CompilerConfig}

pub record UnconditionalJump : Type 0 where
  pub src_x86 : ℕ
  pub dst_mips : ℕ
  pub dst_x86 : Option ℕ

pub record ConditionalJump : Type 0 where
  pub src_x86 : ℕ
  pub cond : CondCode
  pub dst_true_mips : ℕ
  pub dst_false_mips : ℕ
  pub dst_true_x86 : Option ℕ
  pub dst_false_x86 : Option ℕ

pub record CompiledBlock : Type 0 where
  pub code : ℕ
  pub size : ℕ
  pub host_instr_count : ℕ
  pub source_instr_count : ℕ
  pub config : CompilerConfig
  pub unresolved_jumps : List UnconditionalJump
  pub unresolved_cond_jumps : List ConditionalJump
  pub execution_count : ℕ
