-- ===== src/Emulation/Compiler/Control.antt =====
-- Jumps, branches and delay slots: `get_instr_at_addr`, `compile_delay_slot`, `compile_branch`,
-- `compile_jump` and their variants with a link of src/emulation/compiler.cpp. `compile` is the method
-- of that name, which these call on the delay slot.
use ji_tboy.Base.{
  ℕ, true, ◌==◌, if◌then◌else◌, [], ◌∷◌, ◌++◌, Option, none, some, add32, u32, sext16, ◌<<<◌,
  Outcome, ok, err, ◌>>=◌, branch_in_slot, undefined,
}
use ji_tboy.Mips.Isa.{Instruction, InstructionI, zero_reg, ra}
use ji_tboy.Mips.Isa.{Register as MipsRegister}
use ji_tboy.Mips.Classify.{is_nop, is_branch_instr, writes_reg}
use ji_tboy.X86.Isa.{
  CondCode, RegisterSize, op_cmp, op_cmp_i, ext_cmp_i, op_mov_i, ext_mov_i, op_ret, op_pushf,
  op_popf, op_push, ext_push, op_pop, ext_pop,
}
use ji_tboy.X86.Assembler.{InstrMode, size}
use ji_tboy.X86.Assembler.Instr.{instr_plain, move_cond}
use ji_tboy.Emulation.SourceBlock.{SourceBlock, valid_addr, at}
use ji_tboy.Emulation.Compiler.{Compiler, State, Step, emit, ◌⨟◌, skip, return_reg, acc2_reg}
use ji_tboy.Emulation.Compiler.Registers.{
  emit_imm, emit_ext, compile_reg_load, compile_reg_read, compile_reg_write_imm, load, store_imm,
}

-- `_assembler.instr<Op>()`
unfoldable pub emit_plain : ℕ → Step
unfolding emit instr_plain
emit_plain op = emit (λ a. ok (instr_plain op a))

-- `_assembler.move_cond<Cond>(return_reg, acc2_reg)`
unfoldable pub emit_move_cond : CondCode → Step
unfolding emit move_cond
emit_move_cond cond = emit (move_cond cond InstrMode.rr RegisterSize.reg32 return_reg acc2_reg)

unfoldable pub block_instr : Option SourceBlock → ℕ → Outcome (Option Instruction)
unfolding valid_addr at
block_instr none addr = err undefined
block_instr (some block) addr =
    if valid_addr block addr then (at block addr >>= λ instr. ok (some instr)) else ok none

unfoldable pub get_instr_at_addr : Compiler → ℕ → Outcome (Option Instruction)
unfolding block_instr
get_instr_at_addr c addr = block_instr c.state.source addr

-- A change of `_state`
unfoldable pub update : (State → State) → Step
update f c = ok (record c { state = f c.state })

-- `_state.terminated = true`
unfoldable pub terminate : Step
unfolding update
terminate = update (λ s. record s { terminated = true })

-- `_state.unresolved_jumps.emplace_back(...)` and that of conditional jumps, under direct linking
unfoldable pub note_jump : ℕ → Step
unfolding size
note_jump target c = ok (
    if c.state.config.direct_linking
    then record c {
      state = record c.state {
        unresolved_jumps = c.state.unresolved_jumps ++ ((size c.assembler, target) ∷ []);
      };
    }
    else c)

unfoldable pub note_cond_jump : CondCode → ℕ → ℕ → Step
unfolding size
note_cond_jump cond target_true target_false c = ok (
    if c.state.config.direct_linking
    then record c {
      state = record c.state {
        unresolved_cond_jumps =
            c.state.unresolved_cond_jumps
            ++ ((size c.assembler, cond, target_true, target_false) ∷ []);
      };
    }
    else c)

-- The comparison of `compile_branch`
unfoldable pub compile_test : InstructionI → Step
unfolding ◌⨟◌ compile_reg_load compile_reg_read
compile_test instr =
    if instr.rs == zero_reg
    then compile_reg_read op_cmp_i ext_cmp_i instr.rt 0
    else (if instr.rt == zero_reg
        then compile_reg_read op_cmp_i ext_cmp_i instr.rs 0
        else load acc2_reg instr.rs ⨟ compile_reg_load op_cmp acc2_reg instr.rt)

-- The code of `compile_branch` behind the delay slot
unfoldable pub compile_targets : CondCode → ℕ → ℕ → Step
unfolding ◌⨟◌ note_cond_jump emit_imm emit_move_cond emit_plain terminate
compile_targets cond target_true target_false =
    note_cond_jump cond target_true target_false
    ⨟ emit_imm op_mov_i ext_mov_i acc2_reg target_true
    ⨟ emit_imm op_mov_i ext_mov_i return_reg target_false
    ⨟ emit_move_cond cond
    ⨟ emit_plain op_ret
    ⨟ terminate

-- `addr + (instr.constant << 2)`
abbrev pub target_of : InstructionI → ℕ → ℕ
target_of instr addr = add32 addr (u32 (sext16 instr.constant <<< 2))

module _ (compile : Instruction → ℕ → Step) where
  unfoldable pub compile_delay_slot : Instruction → ℕ → Step
  unfolding is_branch_instr
  compile_delay_slot delay_instr delay_addr c =
      if is_branch_instr delay_instr then err branch_in_slot else compile delay_instr delay_addr c

  -- The delay slot of `compile_branch`, between `PUSHF` and `POPF`: `is_nop` leaves it out.
  unfoldable pub branch_slot : Option Instruction → ℕ → Step
  unfolding ◌⨟◌ skip is_nop emit_plain compile_delay_slot
  branch_slot none addr = skip
  branch_slot (some delay_slot) addr =
      if is_nop delay_slot
      then skip
      else (emit_plain op_pushf ⨟ compile_delay_slot delay_slot addr ⨟ emit_plain op_popf)

  unfoldable pub compile_branch : CondCode → InstructionI → ℕ → Step
  unfolding ◌⨟◌ get_instr_at_addr compile_test branch_slot compile_targets
  compile_branch cond instr addr c = do
    delay_slot ← get_instr_at_addr c (add32 addr 4)
    (compile_test instr
          ⨟ branch_slot delay_slot (add32 addr 4)
          ⨟ compile_targets cond (target_of instr addr) (add32 addr 8))
        c

  unfoldable pub compile_branch_and_link : CondCode → InstructionI → ℕ → Step
  unfolding ◌⨟◌ compile_reg_write_imm compile_branch
  compile_branch_and_link cond instr addr =
      store_imm ra (add32 addr 8) ⨟ compile_branch cond instr addr

  unfoldable pub jump_slot : Option Instruction → ℕ → Step
  unfolding skip compile_delay_slot
  jump_slot none addr = skip
  jump_slot (some delay_slot) addr = compile_delay_slot delay_slot addr

  -- `compile_jump(uint32_t, uint32_t)`
  unfoldable pub compile_jump : ℕ → ℕ → Step
  unfolding ◌⨟◌ note_jump get_instr_at_addr jump_slot emit_imm emit_plain terminate
  compile_jump target addr =
      note_jump target
      ⨟ (λ c. get_instr_at_addr c (add32 addr 4) >>= λ delay_slot.
          jump_slot delay_slot (add32 addr 4) c)
      ⨟ emit_imm op_mov_i ext_mov_i return_reg target
      ⨟ emit_plain op_ret
      ⨟ terminate

  -- The two ways that `compile_jump(mips::Register, uint32_t)` keeps its target over the delay slot
  unfoldable pub jump_reg_slot : MipsRegister → Option Instruction → ℕ → Step
  unfolding ◌⨟◌ skip writes_reg compile_reg_load emit_ext compile_delay_slot
  jump_reg_slot target none addr = load return_reg target
  jump_reg_slot target (some delay_slot) addr =
      if writes_reg delay_slot target
      then load return_reg target
        ⨟ emit_ext op_push ext_push return_reg
        ⨟ compile_delay_slot delay_slot addr
        ⨟ emit_ext op_pop ext_pop return_reg
      else (compile_delay_slot delay_slot addr ⨟ load return_reg target)

  unfoldable pub compile_jump_reg : MipsRegister → ℕ → Step
  unfolding ◌⨟◌ get_instr_at_addr jump_reg_slot emit_plain terminate
  compile_jump_reg target addr =
      (λ c. get_instr_at_addr c (add32 addr 4) >>= λ delay_slot.
      jump_reg_slot target delay_slot (add32 addr 4) c)
      ⨟ emit_plain op_ret
      ⨟ terminate

  unfoldable pub compile_jump_and_link : MipsRegister → MipsRegister → ℕ → Step
  unfolding ◌⨟◌ compile_reg_write_imm compile_jump_reg
  compile_jump_and_link target link_reg addr =
      store_imm link_reg (add32 addr 8) ⨟ compile_jump_reg target addr
