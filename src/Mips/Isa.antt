-- ===== src/Mips/Isa.antt =====
-- The guest's instruction set: src/mips/mips.hpp and src/mips/instruction.hpp.
-- An enumeration is a data type with the source's names and one constructor `unnamed` for the
-- values of the underlying `uint8_t` that a `static_cast` can produce and the source does not
-- name. A `Register` is its number: the source computes with the numbers, and its `$v0` and the
-- like are second names of them.
pub mod Casts
use ji_tboy.Base.{ℕ}

pub data OpcodeR : Type 0 where
  add addu sub subu and or nor xor jr jalr mult multu div divu mfhi mflo mthi mtlo : OpcodeR
  slt sltu sll sllv sra srav srl srlv : OpcodeR
  unnamed : ℕ → OpcodeR

pub data OpcodeI : Type 0 where
  addi addiu andi ori xori slti sltiu lui lw lb lbu lh lhu sw sb sh : OpcodeI
  beq bgtz blez bne lwl lwr bgez bgezal bltz bltzal : OpcodeI
  unnamed : ℕ → OpcodeI

pub data OpcodeJ : Type 0 where
  j jal : OpcodeJ
  unnamed : ℕ → OpcodeJ

abbrev pub Register : Type 0
Register = ℕ

abbrev pub zero_reg : Register
zero_reg = 0

abbrev pub ra : Register
ra = 31

-- `sa` is a `uint8_t`.
pub record InstructionR : Type 0 where
  pub op : OpcodeR
  pub rd : Register
  pub rs : Register
  pub rt : Register
  pub sa : ℕ

-- `constant` is an `int16_t`, held as its 16-bit pattern.
pub record InstructionI : Type 0 where
  pub op : OpcodeI
  pub rt : Register
  pub rs : Register
  pub constant : ℕ

pub record InstructionJ : Type 0 where
  pub op : OpcodeJ
  pub target : ℕ

-- std::variant<InstructionR, InstructionI, InstructionJ>
pub data Instruction : Type 0 where
  r_type : InstructionR → Instruction
  i_type : InstructionI → Instruction
  j_type : InstructionJ → Instruction
