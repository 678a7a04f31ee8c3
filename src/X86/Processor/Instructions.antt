-- ===== src/X86/Processor/Instructions.antt =====
-- The processor reads the instructions that src/x86/assembler.hpp emits, whatever code follows them.
use ji_tboy.Base.{
  ℕ, ◌≡◌, ◌≢◌, ◌<◌, refl, ◌∙◌, ap, List, [], ◌∷◌, ◌++◌, some, u8, IsU32, Outcome, ok,
}
use mathlib.Core.List.{append_assoc}
use ji_tboy.VectorBuffer.{bytes, write as write_bytes}
use ji_tboy.X86.Isa.{RegisterSize, Opcode, OpcodeExt, Register}
use ji_tboy.X86.Assembler.{
  Assembler, InstrMode, count, write, encode_opcode, write_opcode, write_prefix,
}
use ji_tboy.X86.Assembler.Instr.{instr, instr_offset, instr_ext, instr_ext_offset, instr_plain}
use ji_tboy.X86.Assembler.Emission.{Emits}
use ji_tboy.X86.Processor.{Operand, reg, mem, Instr}
use ji_tboy.X86.Processor.Decoder.{operand, decode, to_operand}
use ji_tboy.X86.Processor.Operands.{
  EmitsOperand, encode_regs-EmitsOperand, encode_regs_offset-EmitsOperand,
}

-- `m` appends one instruction to `a`, and the processor reads `i` from it.
unfoldable pub Yields : Instr → Assembler → Outcome Assembler → Type 0
Yields i a m =
    (code : List ℕ) × (a' : Assembler) × (m ≡ ok a')
    × Emits code a a'
    × ((tail : List ℕ) → decode (code ++ tail) ≡ some (i, tail))

pub op-Emits :
    (op : ℕ) (a a' : Assembler) (src : ℕ) (o : Operand) (code : List ℕ)
    → EmitsOperand src o code (write 1 op (count a)) a'
    → Emits (u8 op ∷ code) a a'
unfolding write write_bytes count
op-Emits op a a' src o code e = record {
  appended = e.appended ∙ append_assoc a.buffer.buffer (u8 op ∷ []) code;
  counted = e.counted;
}

pub bytes-Emits :
    (n v : ℕ) (a a' : Assembler) (code : List ℕ)
    → Emits code a a'
    → Emits (code ++ bytes n v) a (write n v a')
unfolding write write_bytes
bytes-Emits n v a a' code e = record {
  appended = ap (λ b. b ++ bytes n v) e.appended ∙ append_assoc a.buffer.buffer code (bytes n v);
  counted = e.counted;
}

pub to_operand_lem :
    (f : Operand → ℕ → Instr) (bs tail : List ℕ) (src : ℕ) (o : Operand)
    → operand bs ≡ some (src, o, tail)
    → to_operand f bs ≡ some (f o src, tail)
unfolding to_operand
to_operand_lem f bs tail src o e = rw e refl

-- `op` is the byte of an instruction of an operand and a register.
abbrev pub IsForm : ℕ → (Operand → ℕ → Instr) → Type 0
IsForm op f = (bs : List ℕ) → decode (u8 op ∷ bs) ≡ to_operand f bs

module _ (f : Operand → ℕ → Instr) where
  pub instr-Yields :
      (op : Opcode) (dst src : Register) (a : Assembler)
      → IsForm (encode_opcode op InstrMode.rr RegisterSize.reg32) f
      → dst < 8
      → src < 8
      → Yields (f (reg dst) src) a (instr op InstrMode.rr RegisterSize.reg32 dst src a)
  unfolding Yields instr write_opcode write_prefix
  instr-Yields op dst src a k h g =
      let e =
        encode_regs-EmitsOperand dst src
          (write 1 (encode_opcode op InstrMode.rr RegisterSize.reg32) (count a)) h g in
      (
        _,
        _,
        refl,
        op-Emits _ a _ _ _ _ e,
        λ tail. k _ ∙ to_operand_lem f _ tail src (reg dst) (e.read tail),
      )

  pub instr_ext-Yields :
      (op : Opcode) (ext : OpcodeExt) (dst : Register) (a : Assembler)
      → IsForm (encode_opcode op InstrMode.rr RegisterSize.reg32) f
      → dst < 8
      → ext < 8
      → Yields (f (reg dst) ext) a (instr_ext op ext InstrMode.rr RegisterSize.reg32 dst a)
  unfolding instr_ext
  instr_ext-Yields op ext dst a k h g = instr-Yields op dst ext a k h g

  module _ (base : Register) (h : base < 8) (n : base ≢ 4) (m : base ≢ 5) where
    -- A register to memory
    pub instr_rm-Yields :
        (op : Opcode) (src : Register) (off : ℕ) (a : Assembler)
        → IsForm (encode_opcode op InstrMode.rm RegisterSize.reg32) f
        → src < 8
        → IsU32 off
        → Yields
            (f (mem base off) src)
            a
            (instr_offset op InstrMode.rm RegisterSize.reg32 base src off a)
    unfolding Yields instr_offset write_opcode write_prefix
    instr_rm-Yields op src off a k g u =
        let (code, e) =
          encode_regs_offset-EmitsOperand base src off
            (write 1 (encode_opcode op InstrMode.rm RegisterSize.reg32) (count a)) h g n m u in
        (
          _,
          _,
          refl,
          op-Emits _ a _ _ _ _ e,
          λ tail. k _ ∙ to_operand_lem f _ tail src (mem base off) (e.read tail),
        )

    -- Memory to a register
    pub instr_mr-Yields :
        (op : Opcode) (dst : Register) (off : ℕ) (a : Assembler)
        → IsForm (encode_opcode op InstrMode.mr RegisterSize.reg32) f
        → dst < 8
        → IsU32 off
        → Yields
            (f (mem base off) dst)
            a
            (instr_offset op InstrMode.mr RegisterSize.reg32 dst base off a)
    unfolding Yields instr_offset write_opcode write_prefix
    instr_mr-Yields op dst off a k g u =
        let (code, e) =
          encode_regs_offset-EmitsOperand base dst off
            (write 1 (encode_opcode op InstrMode.mr RegisterSize.reg32) (count a)) h g n m u in
        (
          _,
          _,
          refl,
          op-Emits _ a _ _ _ _ e,
          λ tail. k _ ∙ to_operand_lem f _ tail dst (mem base off) (e.read tail),
        )

    pub instr_ext_offset-Yields :
        (op : Opcode) (ext : OpcodeExt) (off : ℕ) (a : Assembler)
        → IsForm (encode_opcode op InstrMode.rm RegisterSize.reg32) f
        → ext < 8
        → IsU32 off
        → Yields
            (f (mem base off) ext)
            a
            (instr_ext_offset op ext InstrMode.rm RegisterSize.reg32 base off a)
    unfolding instr_ext_offset
    instr_ext_offset-Yields op ext off a k g u = instr_rm-Yields op ext off a k g u

-- An instruction without operands
pub instr_plain-Yields :
    (op : ℕ) (i : Instr) (a : Assembler)
    → ((bs : List ℕ) → decode (u8 op ∷ bs) ≡ some (i, bs))
    → Yields i a (ok (instr_plain op a))
unfolding Yields instr_plain count write write_bytes
instr_plain-Yields op i a k = (u8 op ∷ [], _, refl, record { appended = refl; counted = refl }, k)
