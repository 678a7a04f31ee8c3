-- ===== src/Emulation/InterpreterCore/NextPc.antt =====
-- The address after each instruction, described apart from the handlers of
-- src/emulation/interpreter_core.cpp.
use ji_tboy.Base.{
  ℕ, ◌≡◌, refl, arith, Bool, false, ◌==◌, if◌then◌else◌, ◌||◌, not, add32, sub32, is_neg32, slt32,
  IsU32, u32, bit_and, ◌<<<◌,
}
use ji_tboy.Bits.Bound.{bit_or-lt, bit_and-lt}
use ji_tboy.Mips.Isa.{
  OpcodeR, OpcodeI, Instruction, r_type, i_type, j_type, InstructionR, InstructionI, ra,
}
use ji_tboy.Mips.Classify.{branches_r, branches_i}
use ji_tboy.Emulation.State.{EmulatorState, reg}
use ji_tboy.Emulation.Handlers.Control.{j_target, branch_target, link}

-- The condition of a branch, on `rs` as a signed number and on `rt`.
unfoldable pub taken : OpcodeI → ℕ → ℕ → Bool
taken OpcodeI.beq a b = a == b
taken OpcodeI.bne a b = not (a == b)
taken OpcodeI.bgtz a b = not (is_neg32 a || a == 0)
taken OpcodeI.blez a b = is_neg32 a || a == 0
taken OpcodeI.bgez a b = not (is_neg32 a)
taken OpcodeI.bgezal a b = not (is_neg32 a)
taken OpcodeI.bltz a b = is_neg32 a
taken OpcodeI.bltzal a b = is_neg32 a
taken _ a b = false

unfoldable pub linked_r : OpcodeR → InstructionR → EmulatorState → EmulatorState
unfolding link
linked_r OpcodeR.jalr x s = link x.rd s
linked_r _ x s = s

unfoldable pub linked_i : OpcodeI → EmulatorState → EmulatorState
unfolding link
linked_i OpcodeI.bgezal s = link ra s
linked_i OpcodeI.bltzal s = link ra s
linked_i _ s = s

unfoldable pub next_r : OpcodeR → InstructionR → EmulatorState → ℕ
unfolding linked_r branches_r
next_r op x s = if branches_r op then reg (linked_r op x s) x.rs else add32 s.pc 4

unfoldable pub next_i : OpcodeI → InstructionI → EmulatorState → ℕ
unfolding linked_i taken
next_i op x s =
    let t = linked_i op s in
    if taken op (reg t x.rs) (reg t x.rt) then branch_target s.pc x.constant else add32 s.pc 4

-- The address of the instruction that is executed after `instr` and its delay slot. The registers
-- are those after the return address is stored.
unfoldable pub next_pc : Instruction → EmulatorState → ℕ
unfolding next_r next_i
next_pc (r_type x) s = next_r x.op x s
next_pc (i_type x) s = next_i x.op x s
next_pc (j_type x) s = j_target s.pc x.target

pub positive-slt32 : (a : ℕ) → IsU32 a → slt32 0 a ≡ not (is_neg32 a || a == 0)
positive-slt32 a h = ground arith

pub not_positive-slt32 : (a : ℕ) → IsU32 a → not (slt32 0 a) ≡ (is_neg32 a || a == 0)
not_positive-slt32 a h = ground arith

pub negative-slt32 : (a : ℕ) → IsU32 a → slt32 a 0 ≡ is_neg32 a
negative-slt32 a h = ground arith

pub add32-sub32 : (a : ℕ) → IsU32 a → add32 (sub32 a 4) 4 ≡ a
add32-sub32 a h = omega arith

pub plain-taken : (op : OpcodeI) (a b : ℕ) → branches_i op ≡ false → taken op a b ≡ false
unfolding taken branches_i
plain-taken OpcodeI.beq a b h = cc
plain-taken OpcodeI.bne a b h = cc
plain-taken OpcodeI.bgtz a b h = cc
plain-taken OpcodeI.blez a b h = cc
plain-taken OpcodeI.bgez a b h = cc
plain-taken OpcodeI.bgezal a b h = cc
plain-taken OpcodeI.bltz a b h = cc
plain-taken OpcodeI.bltzal a b h = cc
plain-taken _ a b h = refl

pub j_target-lt : (pc target : ℕ) → IsU32 (j_target pc target)
j_target-lt pc target =
    bit_or-lt 32 (bit_and 0xF000_0000 pc) (u32 (target <<< 2))
      (bit_and-lt 32 0xF000_0000 pc (omega arith)) (omega arith)
