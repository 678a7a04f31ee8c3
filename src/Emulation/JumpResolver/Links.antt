-- ===== src/Emulation/JumpResolver/Links.antt =====
-- Where the jumps lead that src/emulation/jump_resolver.cpp writes into memory.
use ji_tboy.Base.{
  ℕ, ◌+◌, ◌-◌, ◌<◌, ◌≡◌, refl, sym, ◌∙◌, ap, arith, Bool-cases, inl, inr, true, List, ◌++◌, length,
  get_or, Option, some, if◌then◌else◌, ◌&&◌, leb, ltb, u32, sub32, IsU32, ok,
}
use ji_tboy.VectorBuffer.{write as write_bytes, VectorBuffer, copy, size as buffer_size}
use ji_tboy.VectorBuffer.Laws.{copy-memory}
use ji_tboy.X86.Isa.{CondCode, cond_code}
use ji_tboy.X86.Assembler.{Assembler, JumpAdjust, write, count}
use ji_tboy.X86.Assembler.{size as assembler_size}
use ji_tboy.X86.Assembler.Jump.{jump, jump_cond, is_near_jump}
use ji_tboy.X86.Assembler.Emission.{Emits}
use ji_tboy.X86.Assembler.JumpTarget.{wanted, jump-jump_target, jump_cond-cond_jump_target}
use ji_tboy.X86.Decode.{jump_target, cond_jump_target}
use ji_tboy.Emulation.CompiledBlock.{UnconditionalJump, ConditionalJump, CompiledBlock}
use ji_tboy.Emulation.JumpResolver.{
  cleared, link_jump, link_both, link_unconditional, resolve_jump, link_conditional,
  resolve_cond_jump,
}

-- The memory from `addr` on holds `code`.
pub Placed : (ℕ → ℕ) → ℕ → List ℕ → Type 0
Placed memory addr code = (k : ℕ) → k < length code → memory (addr + k) ≡ get_or code k 0

copy-Placed :
    (b : VectorBuffer) (addr : ℕ) (memory : ℕ → ℕ) → Placed (copy b addr memory) addr b.buffer
unfolding Placed buffer_size
copy-Placed b addr memory k h =
    let inside : (leb addr (addr + k) && ltb (addr + k) (addr + length b.buffer)) ≡ true =
      ground arith in
    copy-memory b addr memory (addr + k)
    ∙ ap (λ c. if c then get_or b.buffer (addr + k - addr) 0 else memory (addr + k)) inside
    ∙ ap (λ n. get_or b.buffer n 0) {x = addr + k - addr} {y = k} (omega arith)

-- A target that counts from `src` as the offset from there to `dst` is `dst`.
back : (src dst : ℕ) → IsU32 src → IsU32 dst → u32 (src + sub32 dst src) ≡ dst
back src dst h g = omega arith

-- The code at `addr` is a jump to `dst`.
pub JumpsTo : (ℕ → ℕ) → ℕ → ℕ → Type 0
JumpsTo memory addr dst =
    (code : List ℕ) × (d : ℕ) × Placed memory addr code
    × (jump_target code ≡ some d)
    × (u32 (addr + d) ≡ dst)

emitted-Placed :
    (a : Assembler) (code : List ℕ) (addr : ℕ) (memory : ℕ → ℕ)
    → Emits code cleared a
    → Placed (copy a.buffer addr memory) addr code
emitted-Placed a code addr memory em =
    let e : a.buffer.buffer ≡ code = em.appended in rw⁻¹ e (copy-Placed a.buffer addr memory)

link_jump-JumpsTo :
    (src dst : ℕ) (memory : ℕ → ℕ)
    → IsU32 src
    → IsU32 dst
    → JumpsTo (copy (link_jump src dst).buffer src memory) src dst
unfolding link_jump JumpsTo wanted
link_jump-JumpsTo src dst memory h g =
    let (code, em, t) = jump-jump_target JumpAdjust.always (sub32 dst src) cleared (omega arith) in
    (code, sub32 dst src, emitted-Placed _ code src memory em, t, back src dst h g)

-- If the runtime has a block for the target of a jump, and both addresses are of 32 bits,
-- `resolve_jump` succeeds and leaves at the jump's address an instruction by which the processor
-- jumps to that block's code.
pub resolve_jump-JumpsTo :
    (blocks : ℕ → Option CompiledBlock) (j : UnconditionalJump) (memory : ℕ → ℕ)
    (block : CompiledBlock)
    → blocks j.dst_mips ≡ some block
    → IsU32 j.src_x86
    → IsU32 block.code
    → ((resolve_jump blocks j memory).0 ≡ true)
      × JumpsTo (resolve_jump blocks j memory).2 j.src_x86 block.code
unfolding resolve_jump link_unconditional
resolve_jump-JumpsTo blocks j memory block e h g =
    rw e (refl, link_jump-JumpsTo j.src_x86 block.code memory h g)

-- The code at `addr` jumps to `taken` on the condition `cond`, and on to `no` if it does not.
pub BranchesTo : (ℕ → ℕ) → ℕ → CondCode → ℕ → ℕ → Type 0
BranchesTo memory addr cond taken other =
    (code : List ℕ) × (rest : List ℕ) × (d : ℕ) × (e : ℕ) × Placed memory addr (code ++ rest)
    × (cond_jump_target code ≡ some (cond_code cond, d))
    × (u32 (addr + d) ≡ taken)
    × (jump_target rest ≡ some e)
    × (u32 (addr + length code + e) ≡ other)

size-Emits : (code : List ℕ) (a : Assembler) → Emits code cleared a → assembler_size a ≡ length code
unfolding assembler_size buffer_size
size-Emits code a em = ap length em.appended

joined :
    (code rest : List ℕ) (a b : Assembler)
    → Emits code cleared a
    → Emits rest a b
    → b.buffer.buffer ≡ code ++ rest
joined code rest a b em fm = fm.appended ∙ ap (λ l. l ++ rest) em.appended

far_back :
    (src dst n : ℕ) → IsU32 src → IsU32 dst → n < 16 → u32 (src + n + sub32 (sub32 dst src) n) ≡ dst
far_back src dst n h g k = omega arith

cond-size :
    (cond : CondCode) (offset : ℕ)
    → assembler_size (jump_cond JumpAdjust.always cond offset cleared) < 16
unfolding assembler_size buffer_size jump_cond write write_bytes count
cond-size cond offset = elim (Bool-cases (is_near_jump JumpAdjust.always offset)) [
  | inl n ↦ rw n (omega arith)
  | inr n ↦ rw n (omega arith)
]

link_both-BranchesTo :
    (cond : CondCode) (src taken other : ℕ) (memory : ℕ → ℕ)
    → cond_code cond < 16
    → IsU32 src
    → IsU32 taken
    → IsU32 other
    → BranchesTo (copy (link_both cond src taken other).buffer src memory) src cond taken other
unfolding link_both BranchesTo wanted
link_both-BranchesTo cond src taken other memory c h g k =
    let a = jump_cond JumpAdjust.always cond (sub32 taken src) cleared in
    let (code, em, t) =
      jump_cond-cond_jump_target JumpAdjust.always cond (sub32 taken src) cleared c (omega arith) in
    let offset = sub32 (sub32 other src) (assembler_size a) in
    let (rest, fm, u) = jump-jump_target JumpAdjust.always offset a (omega arith) in
    let b = jump JumpAdjust.always offset a in
    let placed : Placed (copy b.buffer src memory) src (code ++ rest) =
      rw⁻¹ (joined code rest a b em fm) (copy-Placed b.buffer src memory) in
    (
      code,
      rest,
      sub32 taken src,
      offset,
      placed,
      t,
      back src taken h g,
      u,
      ap (λ n. u32 (src + n + offset)) (sym (size-Emits code a em))
          ∙ far_back src other (assembler_size a) h k (cond-size cond (sub32 taken src)),
    )

-- If the runtime has blocks for both targets of a conditional jump, all addresses are of 32 bits
-- and the condition code is of four bits, `resolve_jump` succeeds and leaves at the jump's address
-- an instruction by which the processor jumps to the first block's code on the condition, and
-- behind it one by which it jumps to the second block's code.
pub resolve_cond_jump-BranchesTo :
    (blocks : ℕ → Option CompiledBlock) (j : ConditionalJump) (memory : ℕ → ℕ)
    (yes_block no_block : CompiledBlock)
    → blocks j.dst_true_mips ≡ some yes_block
    → blocks j.dst_false_mips ≡ some no_block
    → cond_code j.cond < 16
    → IsU32 j.src_x86
    → IsU32 yes_block.code
    → IsU32 no_block.code
    → (j' : ConditionalJump) × (memory' : ℕ → ℕ) × (resolve_cond_jump blocks j memory
        ≡ ok (true, j', memory'))
      × BranchesTo memory' j.src_x86 j.cond yes_block.code no_block.code
unfolding resolve_cond_jump link_conditional
resolve_cond_jump-BranchesTo blocks j memory yes_block no_block e f c h g k = (
  record j { dst_true_x86 = some yes_block.code; dst_false_x86 = some no_block.code },
  copy (link_both j.cond j.src_x86 yes_block.code no_block.code).buffer j.src_x86 memory,
  rw (e, f) refl,
  link_both-BranchesTo j.cond j.src_x86 yes_block.code no_block.code memory c h g k,
)
