-- ===== src/Emulation/Guest.antt =====
-- Valid states of src/emulation/emulator_state.hpp: what the `uint32_t` members guarantee.
use native.Mathlib.Nat.{div-le_self, mod-le}
use ji_tboy.Base.{
  ℕ, ◌/◌, ◌%◌, ◌^◌, ◌<◌, ◌≡◌, arith, Bool, true, false, if◌then◌else◌, bit_and, ltb, IsU32, not32,
  sar32, sext16, ◌>>>◌, some, Outcome, ok, err, Holds, abs32, undefined, Fault,
}
use ji_tboy.Bits.Field.{bit_and_mask}
use ji_tboy.Mips.Isa.{Instruction, i_type, Register}
use ji_tboy.Mips.RegisterFile.{assign, hi_reg, lo_reg}
use ji_tboy.Mips.RegisterFile.Laws.{IsRegisters, read-lt, write-IsRegisters, assign-IsRegisters}
use ji_tboy.Mips.MemoryMap.{MemoryMap}
use ji_tboy.Mips.MemoryMap.Bytes.{IsWords}
use ji_tboy.Mips.Program.{Program}
use ji_tboy.Emulation.State.{EmulatorState, reg, set_reg}
use ji_tboy.Emulation.Handlers.HiLo.{set_hi, set_lo, div32, rem32}

-- Constants are 16-bit patterns, as `int16_t` makes them.
abbrev pub ConstantFits : Instruction → Type 0
ConstantFits (i_type x) = x.constant < 0x1_0000
ConstantFits _ = Unit

abbrev pub IsProgram : Program → Type 0
IsProgram p = (addr : ℕ) (instr : Instruction) → p.source addr ≡ some instr → ConstantFits instr

-- The state holds 32-bit values, `$zero` holds 0, and the program is `p`.
pub record IsGuest (p : Program) (s : EmulatorState) : Type 0 where
  pub registers : IsRegisters s.regs
  pub words : IsWords s.mem
  pub pc_fits : IsU32 s.pc
  pub same_program : s.program ≡ p

module _ {p : Program} {s : EmulatorState} (g : IsGuest p s) where
  pub reg-lt : (r : Register) → IsU32 (reg s r)
  unfolding reg
  reg-lt r = read-lt s.regs g.registers r

  pub set_reg-IsGuest : (r : Register) (value : ℕ) → IsU32 value → IsGuest p (set_reg s r value)
  unfolding set_reg
  set_reg-IsGuest r value h = record {
    registers = write-IsRegisters s.regs g.registers r value h;
    words = g.words;
    pc_fits = g.pc_fits;
    same_program = g.same_program;
  }

  pub set_hi-IsGuest : (value : ℕ) → IsU32 value → IsGuest p (set_hi s value)
  unfolding set_hi
  set_hi-IsGuest value h = record {
    registers = assign-IsRegisters s.regs g.registers hi_reg value (omega arith) h;
    words = g.words;
    pc_fits = g.pc_fits;
    same_program = g.same_program;
  }

  pub set_lo-IsGuest : (value : ℕ) → IsU32 value → IsGuest p (set_lo s value)
  unfolding set_lo
  set_lo-IsGuest value h = record {
    registers = assign-IsRegisters s.regs g.registers lo_reg value (omega arith) h;
    words = g.words;
    pc_fits = g.pc_fits;
    same_program = g.same_program;
  }

  pub set_mem-IsGuest : (m : MemoryMap) → IsWords m → IsGuest p (record s { mem = m })
  set_mem-IsGuest m h = record {
    registers = g.registers;
    words = h;
    pc_fits = g.pc_fits;
    same_program = g.same_program;
  }

  pub set_pc-IsGuest : (pc : ℕ) → IsU32 pc → IsGuest p (record s { pc = pc })
  set_pc-IsGuest pc h = record {
    registers = g.registers;
    words = g.words;
    pc_fits = h;
    same_program = g.same_program;
  }

  -- Setting LO and then HI, as a division does.
  pub set_lo_hi-IsGuest : (l h : ℕ) → IsU32 l → IsU32 h → IsGuest p (set_hi (set_lo s l) h)
  unfolding set_lo set_hi
  set_lo_hi-IsGuest l h a b = record {
    registers =
        assign-IsRegisters (assign s.regs lo_reg l)
          (assign-IsRegisters s.regs g.registers lo_reg l (omega arith) a) hi_reg h (omega arith) b;
    words = g.words;
    pc_fits = g.pc_fits;
    same_program = g.same_program;
  }

pub low_word-lt : (n : ℕ) → IsU32 (bit_and n 0xFFFF_FFFF)
low_word-lt n = rw (bit_and_mask 32 n) (omega arith)

pub set_hi_lo-IsGuest :
    {p : Program} {s : EmulatorState}
    → IsGuest p s
    → (res : ℕ) → res < 2 ^ 64
    → IsGuest p (set_hi (set_lo s (bit_and res 0xFFFF_FFFF)) (res >>> 32))
set_hi_lo-IsGuest g res h =
    set_lo_hi-IsGuest g (bit_and res 0xFFFF_FFFF) (res >>> 32) (low_word-lt res) (omega arith)

pub sar32-lt : (a k : ℕ) → IsU32 a → IsU32 (sar32 a k)
sar32-lt a k h = ground (arith, div-le_self (not32 a) (2 ^ k), div-le_self a (2 ^ k))

pub shr-lt : (a k : ℕ) → IsU32 a → IsU32 (a >>> k)
shr-lt a k h = omega (arith, div-le_self a (2 ^ k))

pub quotient-lt : (a b : ℕ) → IsU32 a → IsU32 b → IsU32 (div32 a b)
quotient-lt a b h g = ground (arith, div-le_self (abs32 a) (abs32 b))

pub remainder-lt : (a b : ℕ) → IsU32 a → IsU32 b → IsU32 (rem32 a b)
remainder-lt a b h g = ground (arith, mod-le (abs32 a) (abs32 b))

pub udiv-lt : (a b : ℕ) → IsU32 a → IsU32 (a / b)
udiv-lt a b h = omega (arith, div-le_self a b)

pub umod-lt : (a b : ℕ) → IsU32 a → IsU32 (a % b)
umod-lt a b h = omega (arith, mod-le a b)

pub sext16-lt : (n : ℕ) → n < 0x1_0000 → IsU32 (sext16 n)
sext16-lt n h = ground arith

pub test-lt : (b : Bool) → IsU32 (if b then 1 else 0)
test-lt true = omega arith
test-lt false = omega arith

pub Holds-unless {ℓ κ} :
    {A : Type ℓ} (P : A → Type κ) (b : Bool) (e : Fault) (m : Outcome A)
    → Holds P m
    → Holds P (if b then err e else m)
Holds-unless P true e m h = tt
Holds-unless P false e m h = h

pub Holds-choice {ℓ κ} :
    {A : Type ℓ} (P : A → Type κ) (b : Bool) (m n : Outcome A)
    → Holds P m
    → Holds P n
    → Holds P (if b then m else n)
Holds-choice P true m n h g = h
Holds-choice P false m n h g = g

pub shifted-IsGuest :
    {p : Program} (s : EmulatorState)
    → IsGuest p s
    → (r : Register) (sa value : ℕ) → IsU32 value
    → Holds (IsGuest p) (if ltb 31 sa then err undefined else ok (set_reg s r value))
shifted-IsGuest {p = p} s g r sa value h =
    Holds-unless (IsGuest p) (ltb 31 sa) undefined (ok (set_reg s r value))
      (set_reg-IsGuest g r value h)
