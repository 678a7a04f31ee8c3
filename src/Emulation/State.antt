-- ===== src/Emulation/State.antt =====
-- The guest state that every emulator works on: src/emulation/emulator_state.hpp and its .cpp.
use ji_tboy.Base.{ℕ, Bool}
use ji_tboy.Mips.Isa.{Register}
use ji_tboy.Mips.RegisterFile.{RegisterFile, read, write}
use ji_tboy.Mips.MemoryMap.{MemoryMap}
use ji_tboy.Mips.Program.{Program, valid_addr}

pub record EmulatorState : Type 0 where
  pub regs : RegisterFile
  pub mem : MemoryMap
  pub program : Program
  pub pc : ℕ

unfoldable pub valid_pc : EmulatorState → Bool
valid_pc s = valid_addr s.program s.pc

-- `_state.regs[r]` and `_state.regs.write(r, value)`
unfoldable pub reg : EmulatorState → Register → ℕ
reg s r = read s.regs r

unfoldable pub set_reg : EmulatorState → Register → ℕ → EmulatorState
set_reg s r value = record s { regs = write s.regs r value }
