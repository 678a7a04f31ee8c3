-- ===== src/Emulation/JumpResolver.antt =====
-- Direct linking of compiled blocks: src/emulation/jump_resolver.cpp. The assembler is reset before
-- each use, so it is no state; the host's code memory is passed along.
pub mod Links
use ji_tboy.Base.{
  ℕ, Bool, true, false, List, [], ◌∷◌, Option, none, some, if◌then◌else◌, ◌&&◌, not, sub32, Outcome,
  ok, ◌>>=◌,
}
use ji_tboy.VectorBuffer.{copy}
use ji_tboy.X86.Isa.{CondCode, RegisterSize, eax, op_mov_i, ext_mov_i, op_ret}
use ji_tboy.X86.Utils.{negate_cond}
use ji_tboy.X86.Assembler.{Assembler, InstrMode, JumpAdjust, size}
use ji_tboy.X86.Assembler.Instr.{instr_imm, instr_plain}
use ji_tboy.X86.Assembler.Jump.{jump, jump_cond}
use ji_tboy.Emulation.CompiledBlock.{UnconditionalJump, ConditionalJump, CompiledBlock}

-- The assembler after `_assembler.reset()`
abbrev pub cleared : Assembler
cleared = record { buffer = record { buffer = [] }; instr_count = 0 }

-- `Compiler::return_reg`
abbrev pub return_reg : ℕ
return_reg = eax

-- `code` of what `find` returns
abbrev pub code_of : Option CompiledBlock → Option ℕ
code_of none = none
code_of (some block) = some block.code

abbrev pub is_null : Option ℕ → Bool
is_null none = true
is_null (some _) = false

-- `!jump.dst_true_x86 && !jump.dst_false_x86`
abbrev pub is_unlinked : ConditionalJump → Bool
is_unlinked j = is_null j.dst_true_x86 && is_null j.dst_false_x86

-- The code of a jump to `dst` at `src`.
unfoldable pub link_jump : ℕ → ℕ → Assembler
unfolding jump
link_jump src dst = jump JumpAdjust.always (sub32 dst src) cleared

-- The code of a conditional jump to `dst` at `src` that returns `other` to the runtime otherwise.
unfoldable pub link_partly : CondCode → ℕ → ℕ → ℕ → Outcome Assembler
unfolding jump_cond instr_imm instr_plain
link_partly cond src dst other =
    instr_imm op_mov_i ext_mov_i InstrMode.ir RegisterSize.reg32 return_reg other
      (jump_cond JumpAdjust.always cond (sub32 dst src) cleared)
    >>= λ a. ok (instr_plain op_ret a)

-- The code of a conditional jump to `dst_true` at `src` with a jump to `dst_false` behind it.
unfoldable pub link_both : CondCode → ℕ → ℕ → ℕ → Assembler
unfolding jump_cond jump size
link_both cond src dst_true dst_false =
    let a = jump_cond JumpAdjust.always cond (sub32 dst_true src) cleared in
    jump JumpAdjust.always (sub32 (sub32 dst_false src) (size a)) a

module _ (blocks : ℕ → Option CompiledBlock) where
  unfoldable pub link_unconditional :
      UnconditionalJump → (ℕ → ℕ) → Option ℕ → Bool × UnconditionalJump × (ℕ → ℕ)
  unfolding link_jump copy
  link_unconditional j memory none = (false, j, memory)
  link_unconditional j memory (some dst) = (
    true,
    record j { dst_x86 = some dst },
    copy (link_jump j.src_x86 dst).buffer j.src_x86 memory,
  )

  -- `resolve_jump(UnconditionalJump&, blocks)`
  unfoldable pub resolve_jump : UnconditionalJump → (ℕ → ℕ) → Bool × UnconditionalJump × (ℕ → ℕ)
  unfolding link_unconditional
  resolve_jump j memory = link_unconditional j memory (code_of (blocks j.dst_mips))

  -- `resolve_jump(ConditionalJump&, blocks)` on the codes of the two targets.
  unfoldable pub link_conditional :
      ConditionalJump → (ℕ → ℕ) → Option ℕ → Option ℕ → Outcome (Bool × ConditionalJump × (ℕ → ℕ))
  unfolding link_partly link_both negate_cond copy
  link_conditional j memory none none = ok (false, j, memory)
  link_conditional j memory (some dst) none =
      if is_unlinked j
      then (do
        a ← link_partly j.cond j.src_x86 dst j.dst_false_mips
        ok (false, record j { dst_true_x86 = some dst }, copy a.buffer j.src_x86 memory))
      else ok (false, j, memory)
  link_conditional j memory none (some dst) =
      if is_unlinked j
      then (do
        cond ← negate_cond j.cond
        a ← link_partly cond j.src_x86 dst j.dst_true_mips
        ok (false, record j { dst_false_x86 = some dst }, copy a.buffer j.src_x86 memory))
      else ok (false, j, memory)
  link_conditional j memory (some dst_true) (some dst_false) = ok (
    true,
    record j { dst_true_x86 = some dst_true; dst_false_x86 = some dst_false },
    copy (link_both j.cond j.src_x86 dst_true dst_false).buffer j.src_x86 memory,
  )

  unfoldable pub resolve_cond_jump :
      ConditionalJump → (ℕ → ℕ) → Outcome (Bool × ConditionalJump × (ℕ → ℕ))
  unfolding link_conditional
  resolve_cond_jump j memory =
      link_conditional j memory (code_of (blocks j.dst_true_mips))
        (code_of (blocks j.dst_false_mips))

  -- The first loop of `resolve_jumps`, from the last jump to the first: linked jumps are erased.
  unfoldable pub resolve_list : List UnconditionalJump → (ℕ → ℕ) → List UnconditionalJump × (ℕ → ℕ)
  unfolding resolve_jump
  resolve_list [] memory = ([], memory)
  resolve_list (j ∷ js) memory =
      let (js', memory') = resolve_list js memory in
      let (resolved, j', memory'') = resolve_jump j memory' in
      (if resolved then js' else j' ∷ js', memory'')

  -- The second loop
  unfoldable pub resolve_cond_list :
      List ConditionalJump → (ℕ → ℕ) → Outcome (List ConditionalJump × (ℕ → ℕ))
  unfolding resolve_cond_jump
  resolve_cond_list [] memory = ok ([], memory)
  resolve_cond_list (j ∷ js) memory = do
    (js', memory') ← resolve_cond_list js memory
    (resolved, j', memory'') ← resolve_cond_jump j memory'
    ok (if resolved then js' else j' ∷ js', memory'')

  unfoldable pub resolve_jumps : CompiledBlock → (ℕ → ℕ) → Outcome (CompiledBlock × (ℕ → ℕ))
  unfolding resolve_list resolve_cond_list
  resolve_jumps block memory = do
    let (jumps, memory') = resolve_list block.unresolved_jumps memory
    (cond_jumps, memory'') ← resolve_cond_list block.unresolved_cond_jumps memory'
    ok (record block { unresolved_jumps = jumps; unresolved_cond_jumps = cond_jumps }, memory'')
