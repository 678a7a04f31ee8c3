-- ===== src/Emulation/Handlers/Shift.antt =====
-- Shifts: `execute_sll` to `execute_srlv` of src/emulation/interpreter_core.cpp. A shift of a
-- 32-bit value by 32 or more is undefined; `sa` is a `uint8_t`.
use ji_tboy.Base.{
  bit_and, u32, sar32, ltb, if◌then◌else◌, ◌<<<◌, ◌>>>◌, Outcome, ok, err, undefined,
}
use ji_tboy.Mips.Isa.{InstructionR}
use ji_tboy.Emulation.State.{EmulatorState, reg, set_reg}

unfoldable pub execute_sll : InstructionR → EmulatorState → Outcome EmulatorState
unfolding reg set_reg
execute_sll instr s =
    if ltb 31 instr.sa
    then err undefined
    else ok (set_reg s instr.rd (u32 (reg s instr.rt <<< instr.sa)))

unfoldable pub execute_sra : InstructionR → EmulatorState → Outcome EmulatorState
unfolding reg set_reg
execute_sra instr s =
    if ltb 31 instr.sa
    then err undefined
    else ok (set_reg s instr.rd (sar32 (reg s instr.rt) instr.sa))

unfoldable pub execute_srl : InstructionR → EmulatorState → Outcome EmulatorState
unfolding reg set_reg
execute_srl instr s =
    if ltb 31 instr.sa then err undefined else ok (set_reg s instr.rd (reg s instr.rt >>> instr.sa))

unfoldable pub execute_sllv : InstructionR → EmulatorState → EmulatorState
unfolding reg set_reg
execute_sllv instr s =
    let sa = bit_and (reg s instr.rs) 0b11111 in set_reg s instr.rd (u32 (reg s instr.rt <<< sa))

unfoldable pub execute_srav : InstructionR → EmulatorState → EmulatorState
unfolding reg set_reg
execute_srav instr s =
    let sa = bit_and (reg s instr.rs) 0b11111 in set_reg s instr.rd (sar32 (reg s instr.rt) sa)

unfoldable pub execute_srlv : InstructionR → EmulatorState → EmulatorState
unfolding reg set_reg
execute_srlv instr s =
    let sa = bit_and (reg s instr.rs) 0b11111 in set_reg s instr.rd (reg s instr.rt >>> sa)
