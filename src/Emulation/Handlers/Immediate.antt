-- ===== src/Emulation/Handlers/Immediate.antt =====
-- Immediate arithmetic: `execute_addi` to `execute_lui` of src/emulation/interpreter_core.cpp.
-- A constant is a 16-bit pattern: as an `int16_t` it is sign-extended, as a `uint16_t` it is not.
use ji_tboy.Base.{bit_and, bit_or, bit_xor, u32, add32, slt32, sext16, ltb, if◌then◌else◌, ◌<<<◌}
use ji_tboy.Mips.Isa.{InstructionI}
use ji_tboy.Emulation.State.{EmulatorState, reg, set_reg}

unfoldable pub execute_addi : InstructionI → EmulatorState → EmulatorState
unfolding reg set_reg
execute_addi instr s = set_reg s instr.rt (add32 (reg s instr.rs) (sext16 instr.constant))

unfoldable pub execute_addiu : InstructionI → EmulatorState → EmulatorState
unfolding reg set_reg
execute_addiu instr s = set_reg s instr.rt (add32 (reg s instr.rs) (sext16 instr.constant))

unfoldable pub execute_andi : InstructionI → EmulatorState → EmulatorState
unfolding reg set_reg
execute_andi instr s = set_reg s instr.rt (bit_and (reg s instr.rs) instr.constant)

unfoldable pub execute_ori : InstructionI → EmulatorState → EmulatorState
unfolding reg set_reg
execute_ori instr s = set_reg s instr.rt (bit_or (reg s instr.rs) instr.constant)

unfoldable pub execute_xori : InstructionI → EmulatorState → EmulatorState
unfolding reg set_reg
execute_xori instr s = set_reg s instr.rt (bit_xor (reg s instr.rs) instr.constant)

unfoldable pub execute_slti : InstructionI → EmulatorState → EmulatorState
unfolding reg set_reg
execute_slti instr s =
    set_reg s instr.rt (if slt32 (reg s instr.rs) (sext16 instr.constant) then 1 else 0)

unfoldable pub execute_sltiu : InstructionI → EmulatorState → EmulatorState
unfolding reg set_reg
execute_sltiu instr s =
    set_reg s instr.rt (if ltb (reg s instr.rs) (sext16 instr.constant) then 1 else 0)

unfoldable pub execute_lui : InstructionI → EmulatorState → EmulatorState
unfolding reg set_reg
execute_lui instr s = set_reg s instr.rt (u32 (sext16 instr.constant <<< 16))
