-- ===== src/X86/Assembler/Jump.antt =====
-- The jumps of src/x86/assembler.hpp. An `int32_t` offset is its pattern.
use ji_tboy.Base.{ℕ, ◌+◌, Bool, not, ◌&&◌, if◌then◌else◌, bit_or, sub32, slt32, is_neg32}
use ji_tboy.X86.Isa.{
  CondCode, cond_code, op_jmp_8, op_jmp_32, op_jcc_8, op_jcc_32, op_call, prefix_jcc_32,
}
use ji_tboy.X86.Assembler.{Assembler, JumpAdjust, count, write, is_8_bit}

unfoldable pub adjust_offset : JumpAdjust → ℕ → ℕ → ℕ
adjust_offset JumpAdjust.always offset instr_size = sub32 offset instr_size
adjust_offset JumpAdjust.auto offset instr_size =
    if is_neg32 offset then sub32 offset instr_size else offset
adjust_offset JumpAdjust.never offset instr_size = offset

-- `offset >= -128 + NearSize && offset <= high`, with the default `NearSize` of 2
abbrev pub between : ℕ → ℕ → Bool
between offset high = not (slt32 offset 0xffff_ff82) && not (slt32 high offset)

unfoldable pub is_near_jump : JumpAdjust → ℕ → Bool
unfolding is_8_bit
is_near_jump JumpAdjust.never offset = is_8_bit offset
is_near_jump JumpAdjust.auto offset = between offset 127
is_near_jump JumpAdjust.always offset = between offset 129

unfoldable pub jump : JumpAdjust → ℕ → Assembler → Assembler
unfolding count write is_near_jump adjust_offset
jump adjust offset a =
    let is_near = is_near_jump adjust offset in
    let instr_size = 1 + (if is_near then 1 else 4) in
    let offset' = adjust_offset adjust offset instr_size in
    if is_near
    then write 1 offset' (write 1 op_jmp_8 (count a))
    else write 4 offset' (write 1 op_jmp_32 (count a))

unfoldable pub jump_cond : JumpAdjust → CondCode → ℕ → Assembler → Assembler
unfolding count write is_near_jump adjust_offset
jump_cond adjust cond offset a =
    let is_near = is_near_jump adjust offset in
    let instr_size = 1 + (if is_near then 1 else 5) in
    let offset' = adjust_offset adjust offset instr_size in
    if is_near
    then write 1 offset' (write 1 (bit_or (cond_code cond) op_jcc_8) (count a))
    else write 4 offset'
        (write 1 (bit_or (cond_code cond) op_jcc_32) (write 1 prefix_jcc_32 (count a)))

unfoldable pub call : JumpAdjust → ℕ → Assembler → Assembler
unfolding count write adjust_offset
call adjust offset a = write 4 (adjust_offset adjust offset 5) (write 1 op_call (count a))
