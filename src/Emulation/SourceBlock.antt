-- ===== src/Emulation/SourceBlock.antt =====
-- A run of instructions to compile: src/emulation/source_block.cpp.
use ji_tboy.Base.{ℕ, ◌/◌, Bool, ltb, leb, not, ◌&&◌, if◌then◌else◌, sub32, Outcome, err, bad_addr}
use ji_tboy.Mips.Isa.{Instruction}
use ji_tboy.Mips.Program.{Program}
use ji_tboy.Mips.Program.{at as program_at}

pub record SourceBlock : Type 0 where
  pub program : Program
  pub start_addr : ℕ
  pub end_addr : ℕ

unfoldable pub size : SourceBlock → ℕ
size b = sub32 b.end_addr b.start_addr / 4

unfoldable pub valid_addr : SourceBlock → ℕ → Bool
valid_addr b addr = leb b.start_addr addr && ltb addr b.end_addr

unfoldable pub at : SourceBlock → ℕ → Outcome Instruction
unfolding valid_addr
at b addr = if not (valid_addr b addr) then err bad_addr else program_at b.program addr
