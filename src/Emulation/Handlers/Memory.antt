-- ===== src/Emulation/Handlers/Memory.antt =====
-- Loads and stores: `calc_mem_target` and `execute_lw` to `execute_lwr` of
-- src/emulation/interpreter_core.cpp. A word access does not look at the alignment.
use ji_tboy.Base.{ℕ, add32, sext16, Outcome, ok, ◌>>=◌}
use ji_tboy.Mips.Isa.{InstructionI}
use ji_tboy.Mips.MemoryMap.{
  read_word, write_word, load_word_left, load_word_right, read, write, Width,
}
use ji_tboy.Emulation.State.{EmulatorState, reg, set_reg}

unfoldable pub calc_mem_target : InstructionI → EmulatorState → ℕ
unfolding reg
calc_mem_target instr s = add32 (reg s instr.rs) (sext16 instr.constant)

unfoldable pub execute_lw : InstructionI → EmulatorState → EmulatorState
unfolding set_reg calc_mem_target
execute_lw instr s = set_reg s instr.rt (read_word s.mem (calc_mem_target instr s))

unfoldable pub execute_lb : InstructionI → EmulatorState → Outcome EmulatorState
unfolding set_reg calc_mem_target
execute_lb instr s = do
  value ← read Width.byte s.mem (calc_mem_target instr s)
  ok (set_reg s instr.rt value)

unfoldable pub execute_lbu : InstructionI → EmulatorState → Outcome EmulatorState
unfolding set_reg calc_mem_target
execute_lbu instr s = do
  value ← read Width.ubyte s.mem (calc_mem_target instr s)
  ok (set_reg s instr.rt value)

unfoldable pub execute_lh : InstructionI → EmulatorState → Outcome EmulatorState
unfolding set_reg calc_mem_target
execute_lh instr s = do
  value ← read Width.half s.mem (calc_mem_target instr s)
  ok (set_reg s instr.rt value)

unfoldable pub execute_lhu : InstructionI → EmulatorState → Outcome EmulatorState
unfolding set_reg calc_mem_target
execute_lhu instr s = do
  value ← read Width.uhalf s.mem (calc_mem_target instr s)
  ok (set_reg s instr.rt value)

unfoldable pub execute_sw : InstructionI → EmulatorState → EmulatorState
unfolding reg calc_mem_target
execute_sw instr s = record s { mem = write_word s.mem (calc_mem_target instr s) (reg s instr.rt) }

unfoldable pub execute_sb : InstructionI → EmulatorState → Outcome EmulatorState
unfolding reg calc_mem_target
execute_sb instr s = do
  mem ← write Width.ubyte s.mem (calc_mem_target instr s) (reg s instr.rt)
  ok (record s { mem = mem })

unfoldable pub execute_sh : InstructionI → EmulatorState → Outcome EmulatorState
unfolding reg calc_mem_target
execute_sh instr s = do
  mem ← write Width.uhalf s.mem (calc_mem_target instr s) (reg s instr.rt)
  ok (record s { mem = mem })

unfoldable pub execute_lwl : InstructionI → EmulatorState → EmulatorState
unfolding reg set_reg calc_mem_target
execute_lwl instr s =
    let addr = calc_mem_target instr s in
    let result = load_word_left s.mem addr (reg s instr.rt) in set_reg s instr.rt result

unfoldable pub execute_lwr : InstructionI → EmulatorState → EmulatorState
unfolding reg set_reg calc_mem_target
execute_lwr instr s =
    let addr = calc_mem_target instr s in
    let result = load_word_right s.mem addr (reg s instr.rt) in set_reg s instr.rt result
