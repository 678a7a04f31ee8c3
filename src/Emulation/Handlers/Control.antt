-- ===== src/Emulation/Handlers/Control.antt =====
-- Jumps and branches: `link`, `jump`, `branch`, `execute_jr`, `execute_jalr`, `execute_beq` to
-- `execute_bltzal`, `execute_j` and `execute_jal` of src/emulation/interpreter_core.cpp. `slot` is
-- the method `execute(pc)` that `jump` calls on the delay slot.
use ji_tboy.Base.{
  ℕ, bit_and, bit_or, u32, add32, sub32, sext16, slt32, not, ◌==◌, if◌then◌else◌, ◌<<<◌, Outcome,
  ok, ◌>>=◌,
}
use ji_tboy.Mips.Isa.{InstructionR, InstructionI, InstructionJ, Register, ra}
use ji_tboy.Mips.Program.{valid_addr}
use ji_tboy.Emulation.State.{EmulatorState, reg, set_reg}

unfoldable pub link : Register → EmulatorState → EmulatorState
unfolding set_reg
link register s = set_reg s register (add32 s.pc 8)

-- `0xF0000000 & pc | target << 2`
abbrev pub j_target : ℕ → ℕ → ℕ
j_target pc target = bit_or (bit_and 0xF000_0000 pc) (u32 (target <<< 2))

-- `pc + (constant << 2)`
abbrev pub branch_target : ℕ → ℕ → ℕ
branch_target pc constant = add32 pc (u32 (sext16 constant <<< 2))

module _ (slot : ℕ → EmulatorState → Outcome EmulatorState) where
  unfoldable pub jump : ℕ → EmulatorState → Outcome EmulatorState
  jump target s = do
    let delay_slot = add32 s.pc 4
    s' ← if valid_addr s.program delay_slot then slot delay_slot s else ok s
    ok (record s' { pc = sub32 target 4 })

  unfoldable pub branch : InstructionI → EmulatorState → Outcome EmulatorState
  unfolding jump
  branch instr s = jump (branch_target s.pc instr.constant) s

  unfoldable pub execute_jr : InstructionR → EmulatorState → Outcome EmulatorState
  unfolding reg
  execute_jr instr s = jump (reg s instr.rs) s

  unfoldable pub execute_jalr : InstructionR → EmulatorState → Outcome EmulatorState
  unfolding link execute_jr
  execute_jalr instr s = execute_jr instr (link instr.rd s)

  unfoldable pub execute_beq : InstructionI → EmulatorState → Outcome EmulatorState
  unfolding reg
  execute_beq instr s = if reg s instr.rs == reg s instr.rt then branch instr s else ok s

  unfoldable pub execute_bgtz : InstructionI → EmulatorState → Outcome EmulatorState
  unfolding reg
  execute_bgtz instr s = if slt32 0 (reg s instr.rs) then branch instr s else ok s

  unfoldable pub execute_blez : InstructionI → EmulatorState → Outcome EmulatorState
  unfolding reg
  execute_blez instr s = if not (slt32 0 (reg s instr.rs)) then branch instr s else ok s

  unfoldable pub execute_bne : InstructionI → EmulatorState → Outcome EmulatorState
  unfolding reg
  execute_bne instr s = if not (reg s instr.rs == reg s instr.rt) then branch instr s else ok s

  unfoldable pub execute_bgez : InstructionI → EmulatorState → Outcome EmulatorState
  unfolding reg
  execute_bgez instr s = if not (slt32 (reg s instr.rs) 0) then branch instr s else ok s

  unfoldable pub execute_bgezal : InstructionI → EmulatorState → Outcome EmulatorState
  unfolding link execute_bgez
  execute_bgezal instr s = execute_bgez instr (link ra s)

  unfoldable pub execute_bltz : InstructionI → EmulatorState → Outcome EmulatorState
  unfolding reg
  execute_bltz instr s = if slt32 (reg s instr.rs) 0 then branch instr s else ok s

  unfoldable pub execute_bltzal : InstructionI → EmulatorState → Outcome EmulatorState
  unfolding link execute_bltz
  execute_bltzal instr s = execute_bltz instr (link ra s)

  unfoldable pub execute_j : InstructionJ → EmulatorState → Outcome EmulatorState
  execute_j instr s = jump (j_target s.pc instr.target) s

  unfoldable pub execute_jal : InstructionJ → EmulatorState → Outcome EmulatorState
  unfolding link execute_j
  execute_jal instr s = execute_j instr (link ra s)
