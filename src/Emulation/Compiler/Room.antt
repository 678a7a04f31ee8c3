-- ===== src/Emulation/Compiler/Room.antt =====
-- The room that `compile_branch` of src/emulation/compiler.cpp leaves for the jumps that
-- src/emulation/jump_resolver.cpp writes over its end.
use ji_tboy.Base.{
  ℕ, zero, suc, ap, ◌∙◌, ◌/◌, ◌+◌, ◌≤◌, ◌≡◌, refl, arith, Bool, true, false, [], ◌∷◌, ◌++◌, length,
  length-append, if◌then◌else◌, Holds, Holds-weaken, sub32, bit_or,
}
use ji_tboy.X86.Isa.{
  CondCode, RegisterSize, RegisterMode, op_mov_i, ext_mov_i, op_ret, op_jmp_8, op_jmp_32, op_jcc_8,
  op_jcc_32, prefix_jcc_32, cond_code, op_cmov_cc, prefix_cmov_cc,
}
use ji_tboy.X86.Assembler.{
  Assembler, JumpAdjust, InstrMode, size, write, count, encode_regs, write_opcode, write_imm_opcode,
  write_prefix,
}
use ji_tboy.VectorBuffer.{bytes, write as write_bytes, size as buffer_size}
use ji_tboy.X86.Assembler.Instr.{instr_plain, cond_op}
use ji_tboy.X86.Assembler.Jump.{adjust_offset, jump, jump_cond, is_near_jump}
use ji_tboy.Emulation.JumpResolver.{link_both, link_partly, cleared, return_reg}
use ji_tboy.Emulation.Compiler.{Compiler, acc2_reg}
use ji_tboy.Emulation.Compiler.Control.{compile_targets}

bytes-length : (n value : ℕ) → length (bytes n value) ≡ n
bytes-length zero value = refl
bytes-length (suc n) value = ap suc (bytes-length n (value / 0x100))

write-size : (n value : ℕ) (a : Assembler) → size (write n value a) ≡ size a + n
unfolding size buffer_size write write_bytes
write-size n value a =
    length-append a.buffer.buffer (bytes n value) ∙ ap (λ k. size a + k) (bytes-length n value)

count-size : (a : Assembler) → size (count a) ≡ size a
unfolding size buffer_size count
count-size a = refl

encode_regs-size :
    (mode : RegisterMode) (dst src : ℕ) (a : Assembler)
    → size (encode_regs mode dst src a) ≡ size a + 1
unfolding encode_regs
encode_regs-size mode dst src a = write-size 1 _ a

write_opcode-size :
    (op : ℕ) (mode : InstrMode) (a : Assembler)
    → size (write_opcode op mode RegisterSize.reg8 a) ≡ size a + 1
unfolding write_opcode write_prefix
write_opcode-size op mode a = write-size 1 _ a

write_imm_opcode-size :
    (op imm : ℕ) (a : Assembler) → size (write_imm_opcode op RegisterSize.reg32 imm a) ≡ size a + 1
unfolding write_imm_opcode write_prefix
write_imm_opcode-size op imm a = write-size 1 _ a

instr_plain-size : (op : ℕ) (a : Assembler) → size (instr_plain op a) ≡ size a + 1
unfolding instr_plain size
instr_plain-size op a = write-size 1 op (count a)

near_or_far :
    (near : Bool) (v w v' w' : ℕ) (a : Assembler)
    → size (if near then write 1 v (write 1 w (count a)) else write 4 v' (write 1 w' (count a)))
      ≤ size a + 5
near_or_far true v w v' w' a =
    omega (arith, write-size 1 v (write 1 w (count a)), write-size 1 w (count a), count-size a)
near_or_far false v w v' w' a =
    omega (arith, write-size 4 v' (write 1 w' (count a)), write-size 1 w' (count a), count-size a)

cond_near_or_far :
    (near : Bool) (v w v' w' p : ℕ) (a : Assembler)
    → size (
        if near
        then write 1 v (write 1 w (count a))
        else write 4 v' (write 1 w' (write 1 p (count a))))
      ≤ size a + 6
cond_near_or_far true v w v' w' p a =
    omega (arith, write-size 1 v (write 1 w (count a)), write-size 1 w (count a), count-size a)
cond_near_or_far false v w v' w' p a = omega (
  arith,
  write-size 4 v' (write 1 w' (write 1 p (count a))),
  write-size 1 w' (write 1 p (count a)),
  write-size 1 p (count a),
  count-size a,
)

jump-size : (offset : ℕ) (a : Assembler) → size (jump JumpAdjust.always offset a) ≤ size a + 5
unfolding jump
jump-size offset a =
    let near = is_near_jump JumpAdjust.always offset in
    let v = adjust_offset JumpAdjust.always offset (1 + (if near then 1 else 4)) in
    near_or_far near v op_jmp_8 v op_jmp_32 a

jump_cond-size :
    (cond : CondCode) (offset : ℕ) (a : Assembler)
    → size (jump_cond JumpAdjust.always cond offset a) ≤ size a + 6
unfolding jump_cond
jump_cond-size cond offset a =
    let near = is_near_jump JumpAdjust.always offset in
    let v = adjust_offset JumpAdjust.always offset (1 + (if near then 1 else 5)) in
    cond_near_or_far near v (bit_or (cond_code cond) op_jcc_8) v (bit_or (cond_code cond) op_jcc_32)
      prefix_jcc_32 a

cleared-size : size cleared ≡ 0
unfolding size buffer_size
cleared-size = refl

link_both-size :
    (cond : CondCode) (src taken other : ℕ) → size (link_both cond src taken other) ≤ 11
unfolding link_both
link_both-size cond src taken other =
    let a = jump_cond JumpAdjust.always cond (sub32 taken src) cleared in
    omega (
      arith,
      jump_cond-size cond (sub32 taken src) cleared,
      jump-size (sub32 (sub32 other src) (size a)) a,
      cleared-size,
    )

-- `MOV` of a constant into a register
mov_imm-size :
    (dst imm : ℕ) (a : Assembler)
    → size (
        write 4 imm (
          encode_regs RegisterMode.register dst ext_mov_i
            (write_imm_opcode op_mov_i RegisterSize.reg32 imm (count a))))
      ≡ size a + 6
mov_imm-size dst imm a =
    let b = write_imm_opcode op_mov_i RegisterSize.reg32 imm (count a) in
    let d = encode_regs RegisterMode.register dst ext_mov_i b in
    omega (
      arith,
      write-size 4 imm d,
      encode_regs-size RegisterMode.register dst ext_mov_i b,
      write_imm_opcode-size op_mov_i imm (count a),
      count-size a,
    )

move_cond-size :
    (op prefix dst src : ℕ) (a : Assembler)
    → size (
        encode_regs RegisterMode.register dst src
          (write_opcode op InstrMode.rr RegisterSize.reg8 (count (write 1 prefix a))))
      ≡ size a + 3
move_cond-size op prefix dst src a =
    let b = write 1 prefix a in
    let d = write_opcode op InstrMode.rr RegisterSize.reg8 (count b) in
    omega (
      arith,
      write-size 1 prefix a,
      write_opcode-size op InstrMode.rr (count b),
      encode_regs-size RegisterMode.register dst src d,
      count-size b,
    )

link_partly-size :
    (cond : CondCode) (src taken other : ℕ)
    → Holds (λ a. size a ≤ 13) (link_partly cond src taken other)
unfolding link_partly
link_partly-size cond src taken other =
    let a = jump_cond JumpAdjust.always cond (sub32 taken src) cleared in
    let b = write 4 other (
      encode_regs RegisterMode.register return_reg ext_mov_i
        (write_imm_opcode op_mov_i RegisterSize.reg32 other (count a))) in
    omega (
      arith,
      mov_imm-size return_reg other a,
      jump_cond-size cond (sub32 taken src) cleared,
      instr_plain-size op_ret b,
      cleared-size,
    )

chosen {ℓ} : {A : Type ℓ} (b : Bool) (x y : A) → b ≡ true → (if b then x else y) ≡ x
chosen b x y e = rw e refl

noted : CondCode → ℕ → ℕ → Compiler → Compiler
noted cond target_true target_false c = record c {
  state = record c.state {
    unresolved_cond_jumps =
        c.state.unresolved_cond_jumps ++ ((size c.assembler, cond, target_true, target_false) ∷ []);
  };
}

-- The four instructions that `compile_targets` emits
compile_targets-size :
    (cond : CondCode) (target_true target_false : ℕ) (c : Compiler)
    → c.state.config.direct_linking ≡ true
    → Holds
        (λ c'.
          (c'.state.unresolved_cond_jumps
            ≡ c.state.unresolved_cond_jumps
              ++ ((size c.assembler, cond, target_true, target_false) ∷ []))
          × (size c'.assembler ≡ size c.assembler + 16))
        (compile_targets cond target_true target_false c)
unfolding compile_targets noted
compile_targets-size cond target_true target_false c d =
    let k = if c.state.config.direct_linking then noted cond target_true target_false c else c in
    let same = chosen c.state.config.direct_linking (noted cond target_true target_false c) c d in
    let m = write 4 target_true (
      encode_regs RegisterMode.register acc2_reg ext_mov_i
        (write_imm_opcode op_mov_i RegisterSize.reg32 target_true (count k.assembler))) in
    let o = write 4 target_false (
      encode_regs RegisterMode.register return_reg ext_mov_i
        (write_imm_opcode op_mov_i RegisterSize.reg32 target_false (count m))) in
    let q = encode_regs RegisterMode.register acc2_reg return_reg (
      write_opcode (cond_op op_cmov_cc cond) InstrMode.rr RegisterSize.reg8
        (count (write 1 prefix_cmov_cc o))) in
    (
      ap (λ x. x.state.unresolved_cond_jumps) same,
      omega (
        arith,
        ap (λ x. size x.assembler) same,
        mov_imm-size acc2_reg target_true k.assembler,
        mov_imm-size return_reg target_false m,
        move_cond-size (cond_op op_cmov_cc cond) prefix_cmov_cc acc2_reg return_reg o,
        instr_plain-size op_ret q,
      ),
    )

-- Under direct linking, `compile_branch` notes the place of a conditional jump for which the code
-- behind that place has room: whatever code the resolver later writes there, for both targets or
-- for one, on this condition or its negation, ends within the block.
pub compile_targets-room :
    (cond written : CondCode) (target_true target_false src dst other : ℕ) (c : Compiler)
    → c.state.config.direct_linking ≡ true
    → Holds
        (λ c'.
          (c'.state.unresolved_cond_jumps
            ≡ c.state.unresolved_cond_jumps
              ++ ((size c.assembler, cond, target_true, target_false) ∷ []))
          × (size c.assembler + size (link_both written src dst other) ≤ size c'.assembler)
          × Holds
              (λ a. size c.assembler + size a ≤ size c'.assembler)
              (link_partly written src dst other))
        (compile_targets cond target_true target_false c)
compile_targets-room cond written target_true target_false src dst other c d =
    Holds-weaken _ _ (compile_targets cond target_true target_false c)
      (λ c' (e, s). (
        e,
        omega (arith, s, link_both-size written src dst other),
        Holds-weaken (λ a. size a ≤ 13) _ (link_partly written src dst other)
            (λ a k. omega (arith, s, k)) (link_partly-size written src dst other),
      ))
      (compile_targets-size cond target_true target_false c d)
