-- ===== src/Emulation/Compiler/Nesting.antt =====
-- How deep the calls of `compile` in src/emulation/compiler.cpp nest.
use ji_tboy.Base.{
  ℕ, suc, ◌≡◌, refl, ap, false, Bool-cases, inl, inr, if◌then◌else◌, Option, none, some, add32, err,
  ◌>>=◌, branch_in_slot,
}
use ji_tboy.Mips.Isa.{
  OpcodeR, OpcodeI, OpcodeJ, Instruction, r_type, i_type, j_type, InstructionR, InstructionI,
  InstructionJ, ra,
}
use mathlib.Core.Path.{fun_ext}
use ji_tboy.Mips.Isa.{Register as MipsRegister}
use ji_tboy.Mips.Classify.{is_branch_instr, branches_r, branches_i, is_nop, writes_reg}
use ji_tboy.X86.Isa.{
  CondCode, op_pushf, op_popf, op_push, ext_push, op_pop, ext_pop, op_ret, op_mov_i, ext_mov_i,
}
use ji_tboy.Emulation.Compiler.{Compiler, Host, Step, ◌⨟◌, skip, return_reg}
use ji_tboy.Emulation.Compiler.Registers.{load, store_imm, emit_ext, emit_imm}
use ji_tboy.Emulation.Compiler.Control.{
  compile_delay_slot, branch_slot, compile_branch, compile_branch_and_link, jump_slot, compile_jump,
  jump_reg_slot, compile_jump_reg, compile_jump_and_link, emit_plain, get_instr_at_addr,
  compile_test, compile_targets, target_of, note_jump, terminate,
}
use ji_tboy.Emulation.Compiler.Dispatch.{
  compile_r, compile_i, compile_j, compile_instr, compile, j_target,
}

module _ (host : Host) (s s' : Instruction → ℕ → Step) where
  -- An instruction that does not branch never looks at its delay slot.
  plain-r :
      (op : OpcodeR) (x : InstructionR) (addr : ℕ)
      → branches_r op ≡ false
      → compile_r host s op x addr ≡ compile_r host s' op x addr
  unfolding branches_r compile_r
  plain-r OpcodeR.jr x addr e = absurd (cc)
  plain-r OpcodeR.jalr x addr e = absurd (cc)
  plain-r _ x addr e = refl

  plain-i :
      (op : OpcodeI) (x : InstructionI) (addr : ℕ)
      → branches_i op ≡ false
      → compile_i host s op x addr ≡ compile_i host s' op x addr
  unfolding branches_i compile_i
  plain-i OpcodeI.beq x addr e = absurd (cc)
  plain-i OpcodeI.bne x addr e = absurd (cc)
  plain-i OpcodeI.bgtz x addr e = absurd (cc)
  plain-i OpcodeI.blez x addr e = absurd (cc)
  plain-i OpcodeI.bgez x addr e = absurd (cc)
  plain-i OpcodeI.bgezal x addr e = absurd (cc)
  plain-i OpcodeI.bltz x addr e = absurd (cc)
  plain-i OpcodeI.bltzal x addr e = absurd (cc)
  plain-i _ x addr e = refl

  plain_instr :
      (x : Instruction) (addr : ℕ)
      → is_branch_instr x ≡ false
      → compile_instr host s x addr ≡ compile_instr host s' x addr
  unfolding is_branch_instr compile_instr
  plain_instr (r_type x) addr e = plain-r x.op x addr e
  plain_instr (i_type x) addr e = plain-i x.op x addr e
  plain_instr (j_type x) addr e = absurd (cc)

module _ (host : Host) (s s' : Instruction → ℕ → Step)
    (same : compile_delay_slot s ≡ compile_delay_slot s') where
  branch_slot_at :
      (o : Option Instruction) (addr : ℕ) → branch_slot s o addr ≡ branch_slot s' o addr
  unfolding branch_slot
  branch_slot_at none addr = refl
  branch_slot_at (some d) addr =
      ap
        (λ (k : Instruction → ℕ → Step).
          if is_nop d then skip else (emit_plain op_pushf ⨟ k d addr ⨟ emit_plain op_popf))
        same

  branch_slot-same : branch_slot s ≡ branch_slot s'
  branch_slot-same = fun_ext (λ o. fun_ext (branch_slot_at o))

  compile_branch-same : compile_branch s ≡ compile_branch s'
  unfolding compile_branch
  compile_branch-same =
      ap {B = CondCode → InstructionI → ℕ → Step}
        (λ (k : Option Instruction → ℕ → Step) cond instr addr c.
          get_instr_at_addr c (add32 addr 4) >>= λ delay_slot.
          (compile_test instr
              ⨟ k delay_slot (add32 addr 4)
              ⨟ compile_targets cond (target_of instr addr) (add32 addr 8))
            c)
        branch_slot-same

  compile_branch_and_link-same : compile_branch_and_link s ≡ compile_branch_and_link s'
  unfolding compile_branch_and_link
  compile_branch_and_link-same =
      ap {B = CondCode → InstructionI → ℕ → Step}
        (λ (k : CondCode → InstructionI → ℕ → Step) cond instr addr.
          store_imm ra (add32 addr 8) ⨟ k cond instr addr)
        compile_branch-same

  jump_slot_at : (o : Option Instruction) (addr : ℕ) → jump_slot s o addr ≡ jump_slot s' o addr
  unfolding jump_slot
  jump_slot_at none addr = refl
  jump_slot_at (some d) addr = ap (λ (k : Instruction → ℕ → Step). k d addr) same

  jump_slot-same : jump_slot s ≡ jump_slot s'
  jump_slot-same = fun_ext (λ o. fun_ext (jump_slot_at o))

  compile_jump-same : compile_jump s ≡ compile_jump s'
  unfolding compile_jump
  compile_jump-same =
      ap {B = ℕ → ℕ → Step}
        (λ (k : Option Instruction → ℕ → Step) target addr.
          note_jump target
          ⨟ (λ c.
              get_instr_at_addr c (add32 addr 4) >>= λ delay_slot. k delay_slot (add32 addr 4) c)
          ⨟ emit_imm op_mov_i ext_mov_i return_reg target
          ⨟ emit_plain op_ret
          ⨟ terminate)
        jump_slot-same

  jump_reg_slot_at :
      (target : MipsRegister) (o : Option Instruction) (addr : ℕ)
      → jump_reg_slot s target o addr ≡ jump_reg_slot s' target o addr
  unfolding jump_reg_slot
  jump_reg_slot_at target none addr = refl
  jump_reg_slot_at target (some d) addr =
      ap
        (λ (k : Instruction → ℕ → Step).
          if writes_reg d target
          then load return_reg target
            ⨟ emit_ext op_push ext_push return_reg
            ⨟ k d addr
            ⨟ emit_ext op_pop ext_pop return_reg
          else (k d addr ⨟ load return_reg target))
        same

  jump_reg_slot-same : jump_reg_slot s ≡ jump_reg_slot s'
  jump_reg_slot-same = fun_ext (λ target. fun_ext (λ o. fun_ext (jump_reg_slot_at target o)))

  compile_jump_reg-same : compile_jump_reg s ≡ compile_jump_reg s'
  unfolding compile_jump_reg
  compile_jump_reg-same =
      ap {B = MipsRegister → ℕ → Step}
        (λ (k : MipsRegister → Option Instruction → ℕ → Step) target addr.
          (λ c. get_instr_at_addr c (add32 addr 4) >>= λ delay_slot.
          k target delay_slot (add32 addr 4) c)
          ⨟ emit_plain op_ret
          ⨟ terminate)
        jump_reg_slot-same

  compile_jump_and_link-same : compile_jump_and_link s ≡ compile_jump_and_link s'
  unfolding compile_jump_and_link
  compile_jump_and_link-same =
      ap {B = MipsRegister → MipsRegister → ℕ → Step}
        (λ (k : MipsRegister → ℕ → Step) target link_reg addr.
          store_imm link_reg (add32 addr 8) ⨟ k target addr)
        compile_jump_reg-same

  compile_r-same :
      (op : OpcodeR) (x : InstructionR) (addr : ℕ)
      → compile_r host s op x addr ≡ compile_r host s' op x addr
  unfolding compile_r
  compile_r-same OpcodeR.jr x addr =
      ap (λ (k : MipsRegister → ℕ → Step). k x.rs addr) compile_jump_reg-same
  compile_r-same OpcodeR.jalr x addr =
      ap (λ (k : MipsRegister → MipsRegister → ℕ → Step). k x.rs x.rd addr)
        compile_jump_and_link-same
  compile_r-same _ x addr = refl

  branch_at :
      (cond : CondCode) (x : InstructionI) (addr : ℕ)
      → compile_branch s cond x addr ≡ compile_branch s' cond x addr
  branch_at cond x addr =
      ap (λ (k : CondCode → InstructionI → ℕ → Step). k cond x addr) compile_branch-same

  link_at :
      (cond : CondCode) (x : InstructionI) (addr : ℕ)
      → compile_branch_and_link s cond x addr ≡ compile_branch_and_link s' cond x addr
  link_at cond x addr =
      ap (λ (k : CondCode → InstructionI → ℕ → Step). k cond x addr) compile_branch_and_link-same

  compile_i-same :
      (op : OpcodeI) (x : InstructionI) (addr : ℕ)
      → compile_i host s op x addr ≡ compile_i host s' op x addr
  unfolding compile_i
  compile_i-same OpcodeI.beq x addr = branch_at CondCode.e x addr
  compile_i-same OpcodeI.bne x addr = branch_at CondCode.ne x addr
  compile_i-same OpcodeI.bgtz x addr = branch_at CondCode.g x addr
  compile_i-same OpcodeI.blez x addr = branch_at CondCode.le x addr
  compile_i-same OpcodeI.bgez x addr = branch_at CondCode.ge x addr
  compile_i-same OpcodeI.bltz x addr = branch_at CondCode.l x addr
  compile_i-same OpcodeI.bgezal x addr = link_at CondCode.ge x addr
  compile_i-same OpcodeI.bltzal x addr = link_at CondCode.l x addr
  compile_i-same _ x addr = refl

  compile_j-same :
      (op : OpcodeJ) (x : InstructionJ) (addr : ℕ)
      → compile_j host s op x addr ≡ compile_j host s' op x addr
  unfolding compile_j
  compile_j-same OpcodeJ.j x addr =
      ap (λ (k : ℕ → ℕ → Step). k (j_target host s addr x.target) addr) compile_jump-same
  compile_j-same OpcodeJ.jal x addr =
      ap
        (λ (k : ℕ → ℕ → Step). store_imm ra (add32 addr 8) ⨟ k (j_target host s addr x.target) addr)
        compile_jump-same
  compile_j-same (OpcodeJ.unnamed n) x addr = refl

  compile_instr-same :
      (x : Instruction) (addr : ℕ) → compile_instr host s x addr ≡ compile_instr host s' x addr
  unfolding compile_instr
  compile_instr-same (r_type x) addr = compile_r-same x.op x addr
  compile_instr-same (i_type x) addr = compile_i-same x.op x addr
  compile_instr-same (j_type x) addr = compile_j-same x.op x addr

-- Slots that agree on what does not branch
slots-same :
    (s s' : Instruction → ℕ → Step)
    → ((x : Instruction) (addr : ℕ) (c : Compiler)
        → is_branch_instr x ≡ false
        → s x addr c ≡ s' x addr c)
    → compile_delay_slot s ≡ compile_delay_slot s'
unfolding compile_delay_slot
slots-same s s' h = fun_ext (λ x. fun_ext (λ addr. fun_ext (λ c.
    elim (Bool-cases (is_branch_instr x)) [ inl t ↦ rw t refl | inr t ↦ rw t (h x addr c t) ])))

-- The code of an instruction in which no delay slot is looked at
abbrev pub no_slot : Instruction → ℕ → Step
no_slot instr addr c = err branch_in_slot

-- However much deeper than two the calls of `compile` may nest, its result is that of a translation of
-- two levels that does not count its calls at all: of the instruction, and of the one in its delay slot,
-- in which none is looked at.
pub compile-two_levels :
    (host : Host) (n : ℕ) (instr : Instruction) (addr : ℕ) (c : Compiler)
    → compile host (suc (suc n)) instr addr c
      ≡ compile_instr host (compile_instr host no_slot) instr addr c
unfolding compile
compile-two_levels host n instr addr c =
    ap (λ (k : Step). k c)
      (compile_instr-same host (compile host (suc n)) (compile_instr host no_slot)
        (slots-same (compile host (suc n)) (compile_instr host no_slot)
          (λ x a d e. ap (λ (k : Step). k d) (plain_instr host (compile host n) no_slot x a e)))
        instr addr)
