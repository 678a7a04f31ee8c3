-- ===== src/X86/Processor/Decoder.antt =====
-- How the processor reads instructions from the bytes that src/x86/assembler.hpp emits.
use ji_tboy.Base.{
  ℕ, ◌/◌, ◌%◌, Bool, ◌&&◌, ◌==◌, if◌then◌else◌, ltb, List, [], ◌∷◌, Option, none, some, ◌≡◌, ◌++◌,
  sext8,
}
use ji_tboy.X86.Decode.{little_endian, modrm_mode, modrm_reg, modrm_rm}
use ji_tboy.X86.Processor.{
  Operand, reg, mem, Instr, alu, alu_imm, mov, mov_imm, shift_imm, shift_cl, group3, set_cc,
  cmov_cc, push, pop, call, pushf, popf, ret, and_then, entry,
}

-- A value of a byte, its sign extended, and of four bytes, in front of the rest
unfoldable pub byte : List ℕ → Option (ℕ × List ℕ)
byte [] = none
byte (d ∷ bs) = some (d, bs)

unfoldable pub word : List ℕ → Option (ℕ × List ℕ)
unfolding little_endian
word (a ∷ b ∷ c ∷ d ∷ bs) = some (little_endian (a ∷ b ∷ c ∷ d ∷ []), bs)
word _ = none

-- A ModRM byte with what belongs to it: the register field, and the operand.
unfoldable pub operand : List ℕ → Option (ℕ × Operand × List ℕ)
unfolding byte word
operand [] = none
operand (m ∷ bs) =
    if modrm_mode m == 3
    then some (modrm_reg m, reg (modrm_rm m), bs)
    else (if modrm_rm m == 4
        then none
        else (if modrm_mode m == 0
            then (if modrm_rm m == 5 then none else some (modrm_reg m, mem (modrm_rm m) 0, bs))
            else (if modrm_mode m == 1
                then and_then (byte bs)
                    (λ (d, rest). some (modrm_reg m, mem (modrm_rm m) (sext8 d), rest))
                else and_then (word bs)
                    (λ (d, rest). some (modrm_reg m, mem (modrm_rm m) d, rest)))))

abbrev pub Decoded : Type 0
Decoded = Option (Instr × List ℕ)

-- The forms of instructions, by what follows the opcode
unfoldable pub to_operand : (Operand → ℕ → Instr) → List ℕ → Decoded
unfolding operand
to_operand f bs = and_then (operand bs) (λ (r, o, rest). some (f o r, rest))

-- An extension of the opcode, an operand and an immediate
unfoldable pub with_byte : (ℕ → Operand → ℕ → Instr) → List ℕ → Decoded
unfolding operand byte
with_byte f bs =
    and_then (operand bs)
      (λ (r, o, rest). and_then (byte rest) (λ (d, rest'). some (f r o d, rest')))

unfoldable pub with_word : (ℕ → Operand → ℕ → Instr) → List ℕ → Decoded
unfolding operand word
with_word f bs =
    and_then (operand bs)
      (λ (r, o, rest). and_then (word rest) (λ (d, rest'). some (f r o d, rest')))

-- The instructions behind 0F
unfoldable pub decode_0f : List ℕ → Decoded
unfolding to_operand
decode_0f [] = none
decode_0f (op ∷ bs) =
    if op / 16 == 9
    then to_operand (λ o r. set_cc (op % 16) o) bs
    else (if op / 16 == 4 then to_operand (λ o r. cmov_cc (op % 16) r o) bs else none)

abbrev pub is_alu : ℕ → ℕ → Bool
is_alu op form = ltb op 0x40 && op % 8 == form

unfoldable pub decode_alu : ℕ → List ℕ → Decoded
unfolding to_operand
decode_alu op bs =
    if is_alu op 1
    then to_operand (λ o r. alu (op / 8) o (reg r)) bs
    else (if is_alu op 3 then to_operand (λ o r. alu (op / 8) (reg r) o) bs else none)

-- The instructions of one opcode byte
unfoldable pub decode_op : ℕ → List ℕ → Decoded
unfolding to_operand with_byte with_word decode_0f decode_alu word
decode_op op bs =
    elim (entry
      ((0x0F, decode_0f bs)
        ∷ (0x81, with_word alu_imm bs)
        ∷ (0x83, with_byte (λ r o d. alu_imm r o (sext8 d)) bs)
        ∷ (0x89, to_operand (λ o r. mov o (reg r)) bs)
        ∷ (0x8B, to_operand (λ o r. mov (reg r) o) bs)
        ∷ (0x8F, to_operand (λ o r. pop o) bs)
        ∷ (0x9C, some (pushf, bs))
        ∷ (0x9D, some (popf, bs))
        ∷ (0xC1, with_byte shift_imm bs)
        ∷ (0xC3, some (ret, bs))
        ∷ (0xC7, with_word (λ r o d. mov_imm o d) bs)
        ∷ (0xD3, to_operand (λ o r. shift_cl r o) bs)
        ∷ (0xE8, and_then (word bs) (λ (d, rest). some (call d, rest)))
        ∷ (0xF7, to_operand (λ o r. group3 r o) bs)
        ∷ (0xFF, to_operand (λ o r. push o) bs)
        ∷ [])
      op) [ none ↦ decode_alu op bs | some r ↦ r ]

unfoldable pub decode : List ℕ → Decoded
unfolding decode_op
decode [] = none
decode (op ∷ bs) = decode_op op bs

-- The bytes are those of these instructions, one after another, whatever follows.
pub data Encodes : List Instr → List ℕ → Type 0 where
  done : Encodes [] []
  more :
      {is : List Instr} (i : Instr) (code : List ℕ) {rest : List ℕ}
      → ((tail : List ℕ) → decode (code ++ tail) ≡ some (i, tail))
      → Encodes is rest
      → Encodes (i ∷ is) (code ++ rest)
