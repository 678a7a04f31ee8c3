-- ===== src/Emulation/Compiler/Accesses.antt =====
-- The instructions that single steps of src/emulation/compiler.cpp produce.
use ji_tboy.Base.{
  ℕ, ◌≡◌, ◌≢◌, ◌<◌, refl, arith, ◌==◌, ==-ne, if◌then◌else◌, List, [], ◌∷◌, some, u8, IsU32,
}
use ji_tboy.Mips.Isa.{Register as MipsRegister}
use ji_tboy.X86.Isa.{
  Opcode, OpcodeExt, Register, RegisterSize, CondCode, op_add_i, op_mov, op_mov_i, op_sal_i,
  op_set_cc, op_cmov_cc, ext_mov_i,
}
use ji_tboy.X86.Assembler.{InstrMode, encode_opcode}
use ji_tboy.X86.Assembler.Instr.{cond_op}
use ji_tboy.X86.Processor.{Instr, Operand, reg, mem, alu_imm, mov, mov_imm, shift_imm}
use ji_tboy.X86.Processor.Decoder.{decode}
use ji_tboy.X86.Processor.Instructions.{
  IsForm, instr-Yields, instr_ext-Yields, instr_rm-Yields, instr_mr-Yields, instr_ext_offset-Yields,
  instr_plain-Yields,
}
use ji_tboy.X86.Processor.Immediates.{
  alu_reg-Yields, mov_reg-Yields, shift_reg-Yields, alu_mem-Yields, mov_mem-Yields,
  shift_mem-Yields,
}
use ji_tboy.X86.Processor.Conditions.{IsForm0f, set_cond-Yields, move_cond-Yields}
use ji_tboy.Emulation.Compiler.{Step}
use ji_tboy.Emulation.Compiler.Registers.{
  calc_reg_offset, emit_instr, emit_ext, emit_ext_offset, emit_imm, compile_reg_load,
  compile_reg_read, compile_reg_write, compile_reg_write_imm, load, store, store_imm,
}
use ji_tboy.Emulation.Compiler.Arithmetic.{emit_set_cond}
use ji_tboy.Emulation.Compiler.Control.{emit_plain, emit_move_cond}
use ji_tboy.Emulation.Compiler.Codes.{Codes, emit-Codes, guest}

offset-lt : (r : MipsRegister) → IsU32 (calc_reg_offset r)
unfolding calc_reg_offset
offset-lt r = omega arith

-- The form of a load with another instruction than MOV
abbrev pub from_memory : (ℕ → Operand → Instr) → Operand → ℕ → Instr
from_memory f o r = f r o

pub reg_load-Codes :
    (f : Operand → ℕ → Instr) (op : Opcode) (dst : Register) (r : MipsRegister)
    → IsForm (encode_opcode op InstrMode.mr RegisterSize.reg32) f
    → dst < 8
    → Codes (f (guest r) dst ∷ []) (compile_reg_load op dst r)
unfolding compile_reg_load
reg_load-Codes f op dst r k h = emit-Codes _ _ (λ a.
    instr_mr-Yields f 1 (omega arith) (omega arith) (omega arith) op dst (calc_reg_offset r) a k h
      (offset-lt r))

pub load-Codes :
    (dst : Register) (r : MipsRegister)
    → dst < 8
    → Codes (mov (reg dst) (guest r) ∷ []) (load dst r)
unfolding decode encode_opcode
load-Codes dst r h = reg_load-Codes (λ o d. mov (reg d) o) op_mov dst r (λ bs. refl) h

-- A step that is only refused for `$zero`
unless_zero :
    (is : List Instr) (dst : MipsRegister) (m n : Step)
    → dst ≢ 0
    → Codes is n
    → Codes is (λ c. if dst == 0 then m c else n c)
unfolding Codes
unless_zero is dst m n ne k c = rw (==-ne dst 0 ne) (k c)

pub reg_write-Codes :
    (f : Operand → ℕ → Instr) (op : Opcode) (r : MipsRegister) (src : Register)
    → IsForm (encode_opcode op InstrMode.rm RegisterSize.reg32) f
    → src < 8
    → r ≢ 0
    → Codes (f (guest r) src ∷ []) (compile_reg_write op r src)
unfolding compile_reg_write
reg_write-Codes f op r src k h ne = unless_zero _ r _ _ ne (
    emit-Codes _ _ (λ a.
      instr_rm-Yields f 1 (omega arith) (omega arith) (omega arith) op src (calc_reg_offset r) a k h
        (offset-lt r)))

pub store-Codes :
    (r : MipsRegister) (src : Register)
    → src < 8
    → r ≢ 0
    → Codes (mov (guest r) (reg src) ∷ []) (store r src)
unfolding decode encode_opcode
store-Codes r src h ne = reg_write-Codes (λ o s. mov o (reg s)) op_mov r src (λ bs. refl) h ne

pub store_imm-Codes :
    (r : MipsRegister) (n : ℕ) → IsU32 n → r ≢ 0 → Codes (mov_imm (guest r) n ∷ []) (store_imm r n)
unfolding compile_reg_write_imm
store_imm-Codes r n u ne = unless_zero _ r _ _ ne (
    emit-Codes _ _ (λ a.
      mov_mem-Yields 1 (calc_reg_offset r) 0 n a (omega arith) (omega arith) (omega arith)
        (omega arith) (offset-lt r) u))

pub alu_mem-Codes :
    (ext : OpcodeExt) (r : MipsRegister) (n : ℕ)
    → ext < 8
    → IsU32 n
    → r ≢ 0
    → Codes (alu_imm ext (guest r) n ∷ []) (compile_reg_write_imm op_add_i ext r n)
unfolding compile_reg_write_imm
alu_mem-Codes ext r n g u ne = unless_zero _ r _ _ ne (
    emit-Codes _ _ (λ a.
      alu_mem-Yields 1 (calc_reg_offset r) ext n a (omega arith) g (omega arith) (omega arith)
        (offset-lt r) u))

pub shift_mem-Codes :
    (ext : OpcodeExt) (r : MipsRegister) (n : ℕ)
    → ext < 8
    → r ≢ 0
    → Codes (shift_imm ext (guest r) (u8 n) ∷ []) (compile_reg_write_imm op_sal_i ext r n)
unfolding compile_reg_write_imm
shift_mem-Codes ext r n g ne = unless_zero _ r _ _ ne (
    emit-Codes _ _ (λ a.
      shift_mem-Yields 1 (calc_reg_offset r) ext n a (omega arith) g (omega arith) (omega arith)
        (offset-lt r)))

pub reg_read-Codes :
    (ext : OpcodeExt) (r : MipsRegister) (n : ℕ)
    → ext < 8
    → IsU32 n
    → Codes (alu_imm ext (guest r) n ∷ []) (compile_reg_read op_add_i ext r n)
unfolding compile_reg_read
reg_read-Codes ext r n g u = emit-Codes _ _ (λ a.
    alu_mem-Yields 1 (calc_reg_offset r) ext n a (omega arith) g (omega arith) (omega arith)
      (offset-lt r) u)

pub alu_imm-Codes :
    (ext : OpcodeExt) (dst : Register) (n : ℕ)
    → dst < 8
    → ext < 8
    → IsU32 n
    → Codes (alu_imm ext (reg dst) n ∷ []) (emit_imm op_add_i ext dst n)
unfolding emit_imm
alu_imm-Codes ext dst n h g u = emit-Codes _ _ (λ a. alu_reg-Yields dst ext n a h g u)

pub mov_imm-Codes :
    (dst : Register) (n : ℕ)
    → dst < 8
    → IsU32 n
    → Codes (mov_imm (reg dst) n ∷ []) (emit_imm op_mov_i ext_mov_i dst n)
unfolding emit_imm
mov_imm-Codes dst n h u = emit-Codes _ _ (λ a. mov_reg-Yields dst 0 n a h (omega arith) u)

pub shift_imm-Codes :
    (ext : OpcodeExt) (dst : Register) (n : ℕ)
    → dst < 8
    → ext < 8
    → Codes (shift_imm ext (reg dst) (u8 n) ∷ []) (emit_imm op_sal_i ext dst n)
unfolding emit_imm
shift_imm-Codes ext dst n h g = emit-Codes _ _ (λ a. shift_reg-Yields dst ext n a h g)

pub emit_instr-Codes :
    (f : Operand → ℕ → Instr) (op : Opcode) (dst src : Register)
    → IsForm (encode_opcode op InstrMode.rr RegisterSize.reg32) f
    → dst < 8
    → src < 8
    → Codes (f (reg dst) src ∷ []) (emit_instr op dst src)
unfolding emit_instr
emit_instr-Codes f op dst src k h g = emit-Codes _ _ (λ a. instr-Yields f op dst src a k h g)

pub emit_ext-Codes :
    (f : Operand → ℕ → Instr) (op : Opcode) (ext : OpcodeExt) (dst : Register)
    → IsForm (encode_opcode op InstrMode.rr RegisterSize.reg32) f
    → dst < 8
    → ext < 8
    → Codes (f (reg dst) ext ∷ []) (emit_ext op ext dst)
unfolding emit_ext
emit_ext-Codes f op ext dst k h g = emit-Codes _ _ (λ a. instr_ext-Yields f op ext dst a k h g)

pub emit_ext_offset-Codes :
    (f : Operand → ℕ → Instr) (op : Opcode) (ext : OpcodeExt) (base : Register) (r : MipsRegister)
    → IsForm (encode_opcode op InstrMode.rm RegisterSize.reg32) f
    → base < 4
    → ext < 8
    → Codes
        (f (mem base (calc_reg_offset r)) ext ∷ [])
        (emit_ext_offset op ext base (calc_reg_offset r))
unfolding emit_ext_offset
emit_ext_offset-Codes f op ext base r k h g = emit-Codes _ _ (λ a.
    instr_ext_offset-Yields f base (omega arith) (omega arith) (omega arith) op ext
      (calc_reg_offset r) a k g (offset-lt r))

pub set_cond-Codes :
    (f : Operand → ℕ → Instr) (cond : CondCode) (r : MipsRegister)
    → IsForm0f (encode_opcode (cond_op op_set_cc cond) InstrMode.rm RegisterSize.reg8) f
    → Codes (f (guest r) 0 ∷ []) (emit_set_cond cond r)
unfolding emit_set_cond
set_cond-Codes f cond r k = emit-Codes _ _ (λ a.
    set_cond-Yields f cond 1 (calc_reg_offset r) a k (omega arith) (omega arith) (omega arith)
      (offset-lt r))

pub move_cond-Codes :
    (f : Operand → ℕ → Instr) (cond : CondCode)
    → IsForm0f (encode_opcode (cond_op op_cmov_cc cond) InstrMode.rr RegisterSize.reg8) f
    → Codes (f (reg 2) 0 ∷ []) (emit_move_cond cond)
unfolding emit_move_cond
move_cond-Codes f cond k =
    emit-Codes _ _ (λ a. move_cond-Yields f cond 0 2 a k (omega arith) (omega arith))

pub emit_plain-Codes :
    (op : ℕ) (i : Instr)
    → ((bs : List ℕ) → decode (u8 op ∷ bs) ≡ some (i, bs))
    → Codes (i ∷ []) (emit_plain op)
unfolding emit_plain
emit_plain-Codes op i k = emit-Codes _ _ (λ a. instr_plain-Yields op i a k)
