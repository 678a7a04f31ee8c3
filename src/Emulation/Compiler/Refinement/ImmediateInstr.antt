-- ===== src/Emulation/Compiler/Refinement/ImmediateInstr.antt =====
-- Immediate instructions: the code of src/emulation/compiler.cpp against the handlers of
-- src/emulation/interpreter_core.cpp.
use ji_tboy.Base.{
  ℕ, ◌≡◌, ◌≢◌, ◌<◌, refl, sym, ap, arith, Bool, true, false, some, if◌then◌else◌, u32, bit_and,
  bit_or, bit_xor, add32, slt32, ltb, sext16, IsU32, ◌<<<◌, Outcome,
}
use ji_tboy.Mips.Isa.{OpcodeI, Instruction, r_type, i_type, j_type, InstructionI}
use ji_tboy.Mips.Classify.{sign_extends_imm}
use ji_tboy.Mips.RegisterFile.{read, write, assign}
use ji_tboy.X86.Processor.{alu_value}
use ji_tboy.X86.Processor.Decoder.{decode}
use ji_tboy.X86.Processor.Comparison.{holds-less, holds-below}
use ji_tboy.X86.Assembler.{encode_opcode}
use ji_tboy.X86.Isa.{CondCode, op_add_i}
use ji_tboy.Emulation.State.{EmulatorState, reg, set_reg}
use ji_tboy.Emulation.Guest.{sext16-lt}
use ji_tboy.Emulation.InterpreterCore.{dispatch_i, dispatch}
use ji_tboy.Emulation.Handlers.Immediate.{
  execute_addi, execute_addiu, execute_andi, execute_ori, execute_xori, execute_slti, execute_sltiu,
  execute_lui,
}
use ji_tboy.Emulation.Compiler.{Step, Host}
use ji_tboy.Emulation.Compiler.Arithmetic.{compile_alu_i}
use ji_tboy.Emulation.Compiler.Dispatch.{compile_i, compile_instr}
use ji_tboy.Emulation.Compiler.Views.{Runs-nil, Runs-cons, at_guest}
use ji_tboy.Emulation.Compiler.Moves.{mov_imm-Does}
use ji_tboy.Emulation.Compiler.Accesses.{store_imm-Codes}
use ji_tboy.Emulation.Compiler.Registers.{store_imm}
use ji_tboy.Emulation.Compiler.Refinement.RegisterInstr.{IsPlainR, compile_r-Refines}
use ji_tboy.Emulation.Compiler.Translates.{Effects, Translates, write_nonzero}
use ji_tboy.Emulation.Compiler.Refinement.Immediate.{compile_imm-alu}
use ji_tboy.Emulation.Compiler.Refinement.Compare.{compile_compare_i-Translates}
use ji_tboy.Emulation.Compiler.Refinement.Refines.{Refines, refine}

pub record IsImmediate (x : InstructionI) : Type 0 where
  pub rt_fits : x.rt < 32
  pub rs_fits : x.rs < 32
  pub constant_fits : x.constant < 0x1_0000

-- The immediate instructions that stay among the registers and whose code does what their handlers do:
-- branches and accesses to memory are left out, and `lui` into `$zero`.
unfoldable pub IsPlainI : OpcodeI → InstructionI → Type 0
IsPlainI OpcodeI.addi x = IsImmediate x
IsPlainI OpcodeI.addiu x = IsImmediate x
IsPlainI OpcodeI.andi x = IsImmediate x
IsPlainI OpcodeI.ori x = IsImmediate x
IsPlainI OpcodeI.xori x = IsImmediate x
IsPlainI OpcodeI.slti x = IsImmediate x
IsPlainI OpcodeI.sltiu x = IsImmediate x
IsPlainI OpcodeI.lui x = IsImmediate x × (x.rt ≢ 0)
IsPlainI _ x = ⊥

module _ (host : Host) (slot : Instruction → ℕ → Step)
    (slot' : ℕ → EmulatorState → Outcome EmulatorState) (x : InstructionI) (addr : ℕ) where
  abbrev Good : OpcodeI → Type 0
  Good op = Refines (compile_i host slot op x addr) (dispatch_i slot' op x)

  -- An operation on the constant, the sign extended or not
  constant_alu :
      (ext : ℕ) (f : ℕ → ℕ → ℕ) (extends : Bool) (c : ℕ)
      → IsImmediate x
      → sign_extends_imm x.op ≡ extends
      → (if extends then sext16 x.constant else x.constant) ≡ c
      → ext < 7
      → IsU32 c
      → ((a : ℕ) → alu_value ext a c ≡ some (f a c))
      → Translates (compile_alu_i op_add_i ext x) (λ g. write g x.rt (f (read g x.rs) c))
  unfolding compile_alu_i
  constant_alu ext f extends c r e same h u k =
      rw (e, same) (compile_imm-alu ext c (λ a. f a c) x.rt x.rs h u k r.rt_fits r.rs_fits)

  add-Refines :
      (op : OpcodeI)
      → IsImmediate x
      → sign_extends_imm x.op ≡ true
      → Good OpcodeI.addi × Good OpcodeI.addiu
  unfolding compile_i dispatch_i execute_addi execute_addiu set_reg reg alu_value
  add-Refines op r e =
      let add =
        constant_alu 0 add32 true (sext16 x.constant) r e refl (omega arith)
          (sext16-lt x.constant r.constant_fits) (λ a. refl) in
      (refine _ _ _ add (λ s v. (_, refl, refl)), refine _ _ _ add (λ s v. (_, refl, refl)))

  logic-Refines :
      IsImmediate x
      → sign_extends_imm x.op ≡ false
      → Good OpcodeI.andi × Good OpcodeI.ori × Good OpcodeI.xori
  unfolding compile_i dispatch_i execute_andi execute_ori execute_xori set_reg reg alu_value
  logic-Refines r e =
      let fits : IsU32 x.constant = omega (arith, r.constant_fits) in
      (
        refine _ _ _
            (constant_alu 4 bit_and false x.constant r e refl (omega arith) fits (λ a. refl))
            (λ s v. (_, refl, refl)),
        refine _ _ _
            (constant_alu 1 bit_or false x.constant r e refl (omega arith) fits (λ a. refl))
            (λ s v. (_, refl, refl)),
        refine _ _ _
            (constant_alu 6 bit_xor false x.constant r e refl (omega arith) fits (λ a. refl))
            (λ s v. (_, refl, refl)),
      )

  compare-Refines : IsImmediate x → Good OpcodeI.slti × Good OpcodeI.sltiu
  unfolding compile_i dispatch_i execute_slti execute_sltiu set_reg reg decode encode_opcode
  compare-Refines r = (
    refine _ _ _
        (compile_compare_i-Translates CondCode.l 12 slt32 (λ bs. refl) holds-less x r.rt_fits
          r.rs_fits (sext16-lt x.constant r.constant_fits))
        (λ s v. (_, refl, refl)),
    refine _ _ _
        (compile_compare_i-Translates CondCode.b 2 ltb (λ bs. refl) (λ a b h g. holds-below a b) x
          r.rt_fits r.rs_fits (sext16-lt x.constant r.constant_fits))
        (λ s v. (_, refl, refl)),
  )

  -- A constant into a register
  stores :
      (n : ℕ)
      → x.rt < 32
      → x.rt ≢ 0
      → IsU32 n
      → Translates (store_imm x.rt n) (λ g. assign g x.rt n)
  unfolding Translates Effects
  stores n h ne u = (
    _,
    store_imm-Codes x.rt n u ne,
    λ other base b v k. (
      _,
      Runs-cons other base b v _ _ _ _ (mov_imm-Does other base b v (at_guest x.rt) n (omega arith))
          (Runs-nil other base b _),
      refl,
      refl,
    ),
  )

  lui-Refines : IsImmediate x → x.rt ≢ 0 → Good OpcodeI.lui
  unfolding compile_i dispatch_i execute_lui set_reg reg
  lui-Refines r ne =
      refine _ _ _ (stores _ r.rt_fits ne (omega arith))
        (λ s v. (_, refl, sym (write_nonzero s.regs x.rt (u32 (sext16 x.constant <<< 16)) ne)))

  pub compile_i-Refines : (op : OpcodeI) → x.op ≡ op → IsPlainI op x → Good op
  unfolding IsPlainI sign_extends_imm
  compile_i-Refines OpcodeI.addi e r = (add-Refines OpcodeI.addi r (ap sign_extends_imm e)).0
  compile_i-Refines OpcodeI.addiu e r = (add-Refines OpcodeI.addiu r (ap sign_extends_imm e)).1
  compile_i-Refines OpcodeI.andi e r = (logic-Refines r (ap sign_extends_imm e)).0
  compile_i-Refines OpcodeI.ori e r = (logic-Refines r (ap sign_extends_imm e)).1
  compile_i-Refines OpcodeI.xori e r = (logic-Refines r (ap sign_extends_imm e)).2
  compile_i-Refines OpcodeI.slti e r = (compare-Refines r).0
  compile_i-Refines OpcodeI.sltiu e r = (compare-Refines r).1
  compile_i-Refines OpcodeI.lui e (r, ne) = lui-Refines r ne
  compile_i-Refines OpcodeI.lw e r = elim r [ ]
  compile_i-Refines OpcodeI.lb e r = elim r [ ]
  compile_i-Refines OpcodeI.lbu e r = elim r [ ]
  compile_i-Refines OpcodeI.lh e r = elim r [ ]
  compile_i-Refines OpcodeI.lhu e r = elim r [ ]
  compile_i-Refines OpcodeI.sw e r = elim r [ ]
  compile_i-Refines OpcodeI.sb e r = elim r [ ]
  compile_i-Refines OpcodeI.sh e r = elim r [ ]
  compile_i-Refines OpcodeI.beq e r = elim r [ ]
  compile_i-Refines OpcodeI.bgtz e r = elim r [ ]
  compile_i-Refines OpcodeI.blez e r = elim r [ ]
  compile_i-Refines OpcodeI.bne e r = elim r [ ]
  compile_i-Refines OpcodeI.lwl e r = elim r [ ]
  compile_i-Refines OpcodeI.lwr e r = elim r [ ]
  compile_i-Refines OpcodeI.bgez e r = elim r [ ]
  compile_i-Refines OpcodeI.bgezal e r = elim r [ ]
  compile_i-Refines OpcodeI.bltz e r = elim r [ ]
  compile_i-Refines OpcodeI.bltzal e r = elim r [ ]
  compile_i-Refines (OpcodeI.unnamed n) e r = elim r [ ]

-- The instructions that stay among the registers
unfoldable pub IsPlain : Instruction → Type 0
IsPlain (r_type x) = IsPlainR x.op x
IsPlain (i_type x) = IsPlainI x.op x
IsPlain (j_type x) = ⊥

-- For each arithmetic, logic, shift, comparison, HI and LO instruction with registers below 32 (but for
-- variable shifts into `$zero` or with their count in a destination that is not also their operand, `lui`
-- into `$zero`, and `mthi` and `mtlo` from it), the compiler appends code from which the processor
-- reads instructions that change the guest's registers as the interpreter does, wherever the
-- register file lies, and leave the stack; memory and the program counter stay as they are.
pub compile_instr-Refines :
    (host : Host) (slot : Instruction → ℕ → Step)
    (slot' : ℕ → EmulatorState → Outcome EmulatorState) (instr : Instruction) (addr : ℕ)
    → IsPlain instr
    → Refines (compile_instr host slot instr addr) (dispatch slot' instr)
unfolding compile_instr dispatch IsPlain
compile_instr-Refines host slot slot' (r_type x) addr r =
    compile_r-Refines host slot slot' x addr x.op r
compile_instr-Refines host slot slot' (i_type x) addr r =
    compile_i-Refines host slot slot' x addr x.op refl r
compile_instr-Refines host slot slot' (j_type x) addr r = elim r [ ]
