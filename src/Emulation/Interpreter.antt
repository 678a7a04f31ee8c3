-- ===== src/Emulation/Interpreter.antt =====
-- The interpreter: src/emulation/interpreter.cpp. `execute` is a loop; `fuel` bounds its rounds,
-- and `depth` the nested calls of each round.
pub mod Run
use ji_tboy.Base.{
  ℕ, zero, suc, ◌+◌, ◌%◌, ◌^◌, Bool, if◌then◌else◌, Outcome, ok, err, ◌>>=◌, out_of_fuel,
}
use ji_tboy.Mips.RegisterFile.{initial}
use ji_tboy.Mips.Program.{Program}
use ji_tboy.Emulation.State.{EmulatorState, valid_pc}
use ji_tboy.Emulation.InterpreterCore.{execute_current}

pub record Interpreter : Type 0 where
  pub state : EmulatorState
  pub executed_instructions : ℕ

unfoldable pub load_source : Program → Interpreter → Interpreter
load_source program it = record it { state = record it.state { program = program } }

-- The body of the loop in `execute(addr)`. The counter is a `size_t`.
unfoldable pub round : ℕ → Interpreter → Outcome Interpreter
round depth it = do
  s ← execute_current depth it.state
  ok (record { state = s; executed_instructions = (it.executed_instructions + 1) % 2 ^ 64 })

-- The loop in `execute(addr)`
unfoldable pub run : ℕ → ℕ → Interpreter → Outcome Interpreter
unfolding round
run zero depth it = err out_of_fuel
run (suc fuel) depth it =
    let rest = round depth it >>= run fuel depth in if valid_pc it.state then rest else ok it

-- `execute(addr)`
unfoldable pub execute : ℕ → ℕ → ℕ → Interpreter → Outcome Interpreter
unfolding run
execute fuel depth addr it = run fuel depth (record it { state = record it.state { pc = addr } })

-- `execute(program)`
unfoldable pub execute_program : ℕ → ℕ → Program → Interpreter → Outcome Interpreter
unfolding load_source execute
execute_program fuel depth program it =
    let it' = load_source program it in execute fuel depth it'.state.program.entry_point it'
