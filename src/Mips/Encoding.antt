-- ===== src/Mips/Encoding.antt =====
-- Binary instruction words: src/mips/encoding.cpp.
pub mod Words
pub mod RoundTrip
use ji_tboy.Base.{
  ℕ, ◌+◌, ◌<<<◌, ◌>>>◌, bit_and, bit_or, u32, ◌==◌, ◌||◌, if◌then◌else◌, Bool, true, false,
}
use ji_tboy.Mips.Isa.{
  OpcodeI, bgez, bgezal, bltz, bltzal, InstructionR, InstructionI, InstructionJ, Instruction,
  r_type, i_type, j_type,
}
use ji_tboy.Mips.Isa.Casts.{code_r, code_i, code_j, cast_r, cast_i, cast_j}

unfoldable pub decode_instruction_r : ℕ → InstructionR
decode_instruction_r binary =
    let rs = bit_and 0b11111 (binary >>> 21) in
    let rt = bit_and 0b11111 (binary >>> 16) in
    let rd = bit_and 0b11111 (binary >>> 11) in
    let sa = bit_and 0b11111 (binary >>> 6) in
    let funct = bit_and 0b111111 binary in
    record { op = cast_r funct; rd = rd; rs = rs; rt = rt; sa = sa }

unfoldable pub decode_instruction_i : ℕ → InstructionI
decode_instruction_i binary =
    let opcode = bit_and 0b111111 (binary >>> 26) in
    let rs = bit_and 0b11111 (binary >>> 21) in
    let rt = bit_and 0b11111 (binary >>> 16) in
    let constant = bit_and 0xFFFF binary in
    let regimm = opcode == 0b000001 in
    record {
      op = cast_i (if regimm then rt else opcode);
      rt = if regimm then 0 else rt;
      rs = rs;
      constant = constant;
    }

unfoldable pub decode_instruction_j : ℕ → InstructionJ
decode_instruction_j binary =
    let opcode = bit_and 0b111111 (binary >>> 26) in
    let target = bit_and 0x03FF_FFFF binary in record { op = cast_j opcode; target = target }

unfoldable pub decode_instruction : ℕ → Instruction
decode_instruction binary =
    let opcode = bit_and 0b111111 (binary >>> 26) in
    if opcode == 0
    then r_type (decode_instruction_r binary)
    else if opcode == 0b10 || opcode == 0b11
    then j_type (decode_instruction_j binary)
    else i_type (decode_instruction_i binary)

-- The opcode is 0. No line of the source shifts `rd` in.
unfoldable pub encode_instruction_r : InstructionR → ℕ
encode_instruction_r instr =
    let funct = code_r instr.op in
    let binary = bit_or 0 funct in
    let binary = bit_or binary (u32 (0 <<< 26)) in
    let binary = bit_or binary (u32 (instr.rs <<< 21)) in
    let binary = bit_or binary (u32 (instr.rt <<< 16)) in bit_or binary (u32 (instr.sa <<< 6))

-- The case labels of the `switch` in `encode_instruction(InstructionI)`.
abbrev pub is_regimm : OpcodeI → Bool
is_regimm bgez = true
is_regimm bgezal = true
is_regimm bltz = true
is_regimm bltzal = true
is_regimm _ = false

unfoldable pub encode_instruction_i : InstructionI → ℕ
encode_instruction_i instr =
    let rt = if is_regimm instr.op then code_i instr.op else instr.rt in
    let op = if is_regimm instr.op then 0b000001 else code_i instr.op in
    let binary = bit_or 0 instr.constant in
    let binary = bit_or binary (u32 (op <<< 26)) in
    let binary = bit_or binary (u32 (instr.rs <<< 21)) in bit_or binary (u32 (rt <<< 16))

unfoldable pub encode_instruction_j : InstructionJ → ℕ
encode_instruction_j instr =
    let binary = bit_or 0 instr.target in bit_or binary (u32 (code_j instr.op <<< 26))

unfoldable pub encode_instruction : Instruction → ℕ
encode_instruction (r_type x) = encode_instruction_r x
encode_instruction (i_type x) = encode_instruction_i x
encode_instruction (j_type x) = encode_instruction_j x
