-- ===== src/Emulation/Handlers/Alu.antt =====
-- Register arithmetic and logic: `execute_add` to `execute_xor`, `execute_slt` and
-- `execute_sltu` of src/emulation/interpreter_core.cpp.
use ji_tboy.Base.{bit_and, bit_or, bit_xor, add32, sub32, not32, slt32, ltb, if◌then◌else◌}
use ji_tboy.Mips.Isa.{InstructionR}
use ji_tboy.Emulation.State.{EmulatorState, reg, set_reg}

unfoldable pub execute_add : InstructionR → EmulatorState → EmulatorState
unfolding reg set_reg
execute_add instr s = set_reg s instr.rd (add32 (reg s instr.rs) (reg s instr.rt))

unfoldable pub execute_addu : InstructionR → EmulatorState → EmulatorState
unfolding reg set_reg
execute_addu instr s = set_reg s instr.rd (add32 (reg s instr.rs) (reg s instr.rt))

unfoldable pub execute_sub : InstructionR → EmulatorState → EmulatorState
unfolding reg set_reg
execute_sub instr s = set_reg s instr.rd (sub32 (reg s instr.rs) (reg s instr.rt))

unfoldable pub execute_subu : InstructionR → EmulatorState → EmulatorState
unfolding reg set_reg
execute_subu instr s = set_reg s instr.rd (sub32 (reg s instr.rs) (reg s instr.rt))

unfoldable pub execute_and : InstructionR → EmulatorState → EmulatorState
unfolding reg set_reg
execute_and instr s = set_reg s instr.rd (bit_and (reg s instr.rs) (reg s instr.rt))

unfoldable pub execute_or : InstructionR → EmulatorState → EmulatorState
unfolding reg set_reg
execute_or instr s = set_reg s instr.rd (bit_or (reg s instr.rs) (reg s instr.rt))

unfoldable pub execute_nor : InstructionR → EmulatorState → EmulatorState
unfolding reg set_reg
execute_nor instr s = set_reg s instr.rd (not32 (bit_or (reg s instr.rs) (reg s instr.rt)))

unfoldable pub execute_xor : InstructionR → EmulatorState → EmulatorState
unfolding reg set_reg
execute_xor instr s = set_reg s instr.rd (bit_xor (reg s instr.rs) (reg s instr.rt))

unfoldable pub execute_slt : InstructionR → EmulatorState → EmulatorState
unfolding reg set_reg
execute_slt instr s = set_reg s instr.rd (if slt32 (reg s instr.rs) (reg s instr.rt) then 1 else 0)

unfoldable pub execute_sltu : InstructionR → EmulatorState → EmulatorState
unfolding reg set_reg
execute_sltu instr s = set_reg s instr.rd (if ltb (reg s instr.rs) (reg s instr.rt) then 1 else 0)
