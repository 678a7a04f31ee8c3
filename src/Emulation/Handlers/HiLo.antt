-- ===== src/Emulation/Handlers/HiLo.antt =====
-- HI and LO: `execute_mult` to `execute_mtlo` of src/emulation/interpreter_core.cpp.
pub mod Results
use ji_tboy.Base.{
  ℕ, ◌+◌, ◌*◌, ◌/◌, ◌%◌, ◌^◌, bit_and, Bool, xor, sub32, is_neg32, abs32, ◌==◌, ◌&&◌, ◌||◌,
  if◌then◌else◌, ◌>>>◌, Outcome, ok, err, undefined,
}
use ji_tboy.Mips.Isa.{InstructionR}
use ji_tboy.Mips.RegisterFile.{assign, hi, lo, hi_reg, lo_reg}
use ji_tboy.Emulation.State.{EmulatorState, reg, set_reg}

-- An assignment through `_state.regs.hi()` or `_state.regs.lo()`.
unfoldable pub set_hi : EmulatorState → ℕ → EmulatorState
set_hi s value = record s { regs = assign s.regs hi_reg value }

unfoldable pub set_lo : EmulatorState → ℕ → EmulatorState
set_lo s value = record s { regs = assign s.regs lo_reg value }

-- `static_cast<int64_t>(static_cast<int32_t>(a))` as a 64-bit pattern.
abbrev pub sext64 : ℕ → ℕ
sext64 a = if is_neg32 a then a + 0xffff_ffff_0000_0000 else a

-- `left * right` at `int64_t`, as a 64-bit pattern.
abbrev pub product64 : ℕ → ℕ → ℕ
product64 a b = sext64 a * sext64 b % 2 ^ 64

unfoldable pub execute_mult : InstructionR → EmulatorState → EmulatorState
unfolding reg set_hi set_lo
execute_mult instr s =
    let res = product64 (reg s instr.rs) (reg s instr.rt) in
    set_hi (set_lo s (bit_and res 0xFFFF_FFFF)) (res >>> 32)

unfoldable pub execute_multu : InstructionR → EmulatorState → EmulatorState
unfolding reg set_hi set_lo
execute_multu instr s =
    let res = reg s instr.rs * reg s instr.rt % 2 ^ 64 in
    set_hi (set_lo s (bit_and res 0xFFFF_FFFF)) (res >>> 32)

-- `a / b` and `a % b` at `int32_t`: the quotient is cut towards zero, and the remainder has the
-- sign of `a`. Division by zero and of the least integer by -1 is undefined.
abbrev pub signed : Bool → ℕ → ℕ
signed negative n = if negative then sub32 0 n else n

abbrev pub div32 : ℕ → ℕ → ℕ
div32 a b = signed (xor (is_neg32 a) (is_neg32 b)) (abs32 a / abs32 b)

abbrev pub rem32 : ℕ → ℕ → ℕ
rem32 a b = signed (is_neg32 a) (abs32 a % abs32 b)

abbrev pub bad_division : ℕ → ℕ → Bool
bad_division a b = b == 0 || (a == 0x8000_0000 && b == 0xffff_ffff)

unfoldable pub execute_div : InstructionR → EmulatorState → Outcome EmulatorState
unfolding reg set_hi set_lo
execute_div instr s =
    if bad_division (reg s instr.rs) (reg s instr.rt)
    then err undefined
    else (let s' = set_lo s (div32 (reg s instr.rs) (reg s instr.rt)) in
        ok (set_hi s' (rem32 (reg s' instr.rs) (reg s' instr.rt))))

unfoldable pub execute_divu : InstructionR → EmulatorState → Outcome EmulatorState
unfolding reg set_hi set_lo
execute_divu instr s =
    if reg s instr.rt == 0
    then err undefined
    else (let s' = set_lo s (reg s instr.rs / reg s instr.rt) in
        ok (set_hi s' (reg s' instr.rs % reg s' instr.rt)))

unfoldable pub execute_mfhi : InstructionR → EmulatorState → EmulatorState
unfolding set_reg hi
execute_mfhi instr s = set_reg s instr.rd (hi s.regs)

unfoldable pub execute_mflo : InstructionR → EmulatorState → EmulatorState
unfolding set_reg lo
execute_mflo instr s = set_reg s instr.rd (lo s.regs)

unfoldable pub execute_mthi : InstructionR → EmulatorState → EmulatorState
unfolding reg set_hi
execute_mthi instr s = set_hi s (reg s instr.rs)

unfoldable pub execute_mtlo : InstructionR → EmulatorState → EmulatorState
unfolding reg set_lo
execute_mtlo instr s = set_lo s (reg s instr.rs)
