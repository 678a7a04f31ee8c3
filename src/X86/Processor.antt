-- ===== src/X86/Processor.antt =====
-- The processor that runs the code of src/emulation/compiler.cpp, after the instruction set manual
-- and apart from the code: the 32-bit instructions that the compiler uses and what they do. Memory is
-- held by its words at the addresses that the code uses, and the stack as a list.
pub mod Decoder
pub mod Operands
pub mod Instructions
pub mod Immediates
pub mod Conditions
pub mod Comparison
use ji_tboy.Base.{
  ℕ, ◌+◌, ◌-◌, ◌*◌, ◌/◌, ◌%◌, ◌^◌, Bool, true, false, ◌&&◌, ◌||◌, not, xor, ◌==◌, if◌then◌else◌,
  ltb, List, [], ◌∷◌, Option, none, some, bit_and, bit_or, bit_xor, u8, u32, add32, sub32, not32,
  is_neg32, sar32, ◌<<<◌, ◌>>>◌,
}

pub data Operand : Type 0 where
  -- a register
  reg : ℕ → Operand
  -- the word at a register's value and a displacement
  mem : ℕ → ℕ → Operand

-- `alu` is ADD, OR, ADC, SBB, AND, SUB, XOR or CMP, by its number; `shift_imm` and `shift_cl` are
-- ROL to SAR, and `group3` is TEST to IDIV, by theirs. The destination stands first.
pub data Instr : Type 0 where
  alu : ℕ → Operand → Operand → Instr
  alu_imm : ℕ → Operand → ℕ → Instr
  mov : Operand → Operand → Instr
  mov_imm : Operand → ℕ → Instr
  shift_imm : ℕ → Operand → ℕ → Instr
  shift_cl : ℕ → Operand → Instr
  group3 : ℕ → Operand → Instr
  set_cc : ℕ → Operand → Instr
  cmov_cc : ℕ → ℕ → Operand → Instr
  push : Operand → Instr
  pop : Operand → Instr
  call : ℕ → Instr
  pushf : Instr
  popf : Instr
  ret : Instr

pub record Flags : Type 0 where
  pub carry : Bool
  pub zero : Bool
  pub sign : Bool
  pub overflow : Bool

-- What PUSH and PUSHF leave on the stack
pub data Slot : Type 0 where
  word : ℕ → Slot
  flags : Flags → Slot

pub record Machine : Type 0 where
  pub regs : ℕ → ℕ
  pub words : ℕ → ℕ
  pub stack : List Slot
  pub flags : Flags

unfoldable pub update : (ℕ → ℕ) → ℕ → ℕ → ℕ → ℕ
update f at_index value q = if at_index == q then value else f q

abbrev pub address : Machine → ℕ → ℕ → ℕ
address m base disp = add32 (m.regs base) disp

unfoldable pub get : Operand → Machine → ℕ
get (reg r) m = m.regs r
get (mem base disp) m = m.words (address m base disp)

unfoldable pub put : Operand → ℕ → Machine → Machine
unfolding update
put (reg r) value m = record m { regs = update m.regs r value }
put (mem base disp) value m = record m { words = update m.words (address m base disp) value }

-- The entry of a table
abbrev pub entry {ℓ} : {A : Type ℓ} → List (ℕ × A) → ℕ → Option A
entry [] n = none
entry ((k, a) ∷ table) n = let rest = entry table n in if k == n then some a else rest

-- The flags of a comparison of `a` with `b`
unfoldable pub compared : ℕ → ℕ → Flags
compared a b = record {
  carry = ltb a b;
  zero = a == b;
  sign = is_neg32 (sub32 a b);
  overflow = xor (is_neg32 a) (is_neg32 b) && xor (is_neg32 a) (is_neg32 (sub32 a b));
}

-- Whether the condition of a condition code holds; those of parity are left out.
unfoldable pub holds : ℕ → Flags → Option Bool
holds cc f =
    entry
      ((2, f.carry)
        ∷ (3, not f.carry)
        ∷ (4, f.zero)
        ∷ (5, not f.zero)
        ∷ (12, xor f.sign f.overflow)
        ∷ (13, not (xor f.sign f.overflow))
        ∷ (14, f.zero || xor f.sign f.overflow)
        ∷ (15, not (f.zero || xor f.sign f.overflow))
        ∷ [])
      cc

-- The values of the instructions with two operands
unfoldable pub alu_value : ℕ → ℕ → ℕ → Option ℕ
alu_value op a b =
    entry
      ((0, add32 a b) ∷ (1, bit_or a b) ∷ (4, bit_and a b) ∷ (5, sub32 a b) ∷ (6, bit_xor a b) ∷ [])
      op

-- A shift by the five low bits of its count
unfoldable pub shift_value : ℕ → ℕ → ℕ → Option ℕ
shift_value op a n =
    entry ((4, u32 (a <<< (n % 32))) ∷ (5, a >>> (n % 32)) ∷ (7, sar32 a (n % 32)) ∷ []) op

-- Zero-extension of the byte that SETcc writes into a word
abbrev pub with_low_byte : ℕ → ℕ → ℕ
with_low_byte w b = w / 0x100 * 0x100 + b

abbrev pub from_bool : Bool → ℕ
from_bool b = if b then 1 else 0

-- The value of the 64 bits of EDX and EAX
abbrev pub wide : Machine → ℕ
wide m = m.regs 2 * 2 ^ 32 + m.regs 0

abbrev pub put_wide : ℕ → ℕ → Machine → Machine
put_wide low high m = record m { regs = update (update m.regs 0 low) 2 high }

-- `a` as a signed number of 32 bits, at 64 bits
abbrev pub signed64 : ℕ → ℕ
signed64 a = if is_neg32 a then a + 0xffff_ffff_0000_0000 else a

-- IMUL keeps the 64 low bits of the product.
abbrev pub signed_product : ℕ → ℕ → ℕ
signed_product a b = signed64 a * signed64 b % 2 ^ 64

-- IDIV cuts the quotient towards zero; the remainder has the sign of the dividend. Here for a dividend
-- that is the sign extension of EAX.
abbrev pub magnitude : ℕ → ℕ
magnitude a = if is_neg32 a then 0x1_0000_0000 - a else a

abbrev pub with_sign : Bool → ℕ → ℕ
with_sign negative n = if negative then sub32 0 n else n

unfoldable pub divide : ℕ → Machine → Option Machine
unfolding update
divide b m =
    if b == 0 || not (ltb (wide m / b) (2 ^ 32))
    then none
    else some (put_wide (wide m / b) (wide m % b) m)

-- No result where the dividend is not the sign extension of EAX.
unfoldable pub divide_signed : ℕ → Machine → Option Machine
unfolding update
divide_signed b m =
    let a = m.regs 0 in
    if b == 0 || (a == 0x8000_0000 && b == 0xffff_ffff)
    then none
    else (if m.regs 2 == (if is_neg32 a then 0xffff_ffff else 0)
        then some (
            put_wide (with_sign (xor (is_neg32 a) (is_neg32 b)) (magnitude a / magnitude b))
              (with_sign (is_neg32 a) (magnitude a % magnitude b)) m)
        else none)

unfoldable pub multiply : ℕ → Machine → Machine
unfolding update
multiply p m = put_wide (p % 2 ^ 32) (p / 2 ^ 32) m

-- NOT, MUL, IMUL, DIV and IDIV of a value
unfoldable pub group3_step : ℕ → Operand → Machine → Option Machine
unfolding get put divide divide_signed multiply
group3_step op d m =
    elim (entry
      ((2, some (put d (not32 (get d m)) m))
        ∷ (4, some (multiply (m.regs 0 * get d m) m))
        ∷ (5, some (multiply (signed_product (m.regs 0) (get d m)) m))
        ∷ (6, divide (get d m) m)
        ∷ (7, divide_signed (get d m) m)
        ∷ [])
      op) [ none ↦ none | some r ↦ r ]

abbrev pub map_some {ℓ κ} : {A : Type ℓ} {B : Type κ} → (A → B) → Option A → Option B
map_some f none = none
map_some f (some a) = some (f a)

abbrev pub and_then {ℓ κ} : {A : Type ℓ} {B : Type κ} → Option A → (A → Option B) → Option B
and_then none f = none
and_then (some a) f = f a

-- The flags that an instruction other than CMP leaves are not read by the code; `other` stands for them.
module _ (other : Machine → Flags) where
  abbrev pub reflag : Machine → Machine
  reflag m = record m { flags = other m }

  unfoldable pub pop_step : Operand → List Slot → Machine → Option Machine
  unfolding put
  pop_step d (word v ∷ rest) m = some (put d v (record m { stack = rest }))
  pop_step d _ m = none

  unfoldable pub popf_step : List Slot → Machine → Option Machine
  popf_step (flags f ∷ rest) m = some (record m { stack = rest; flags = f })
  popf_step _ m = none

  unfoldable pub alu_step : ℕ → Operand → ℕ → Machine → Option Machine
  unfolding get put compared alu_value
  alu_step op d b m =
      if op == 7
      then some (record m { flags = compared (get d m) b })
      else map_some (λ v. reflag (put d v m)) (alu_value op (get d m) b)

  -- One instruction that does not leave the code
  unfoldable pub step : Instr → Machine → Option Machine
  unfolding get put alu_step shift_value group3_step pop_step popf_step update holds
  step (alu op d s) m = alu_step op d (get s m) m
  step (alu_imm op d n) m = alu_step op d n m
  step (mov d s) m = some (put d (get s m) m)
  step (mov_imm d n) m = some (put d n m)
  step (shift_imm op d n) m = map_some (λ v. reflag (put d v m)) (shift_value op (get d m) n)
  step (shift_cl op d) m =
      map_some (λ v. reflag (put d v m)) (shift_value op (get d m) (u8 (m.regs 1)))
  step (group3 op d) m = map_some reflag (group3_step op d m)
  step (set_cc cc d) m =
      map_some (λ b. put d (with_low_byte (get d m) (from_bool b)) m) (holds cc m.flags)
  step (cmov_cc cc r s) m =
      map_some (λ b. if b then put (reg r) (get s m) m else m) (holds cc m.flags)
  step (push s) m = some (record m { stack = word (get s m) ∷ m.stack })
  step (pop d) m = pop_step d m.stack m
  step pushf m = some (record m { stack = flags m.flags ∷ m.stack })
  step popf m = popf_step m.stack m
  step (call d) m = none
  step ret m = none

  -- Code that runs from its first instruction to its end
  unfoldable pub run : List Instr → Machine → Option Machine
  unfolding step
  run [] m = some m
  run (i ∷ is) m = and_then (step i m) (run is)
