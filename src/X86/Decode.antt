-- ===== src/X86/Decode.antt =====
-- What the processor makes of the bytes that src/x86/assembler.hpp emits, after the instruction set
-- manual and apart from the code: little-endian values, displacements, ModRM bytes, immediates.
use ji_tboy.Base.{
  ℕ, ◌+◌, ◌*◌, ◌/◌, ◌%◌, List, [], ◌∷◌, Option, none, some, ◌==◌, ◌&&◌, ◌||◌, not, if◌then◌else◌,
  add32, sext8,
}

-- The value of bytes, low byte first.
unfoldable pub little_endian : List ℕ → ℕ
little_endian [] = 0
little_endian (b ∷ bs) = b + 0x100 * little_endian bs

-- Where a jump or call leads, counted from its own first byte: the displacement counts from its end.
unfoldable pub jump_target : List ℕ → Option ℕ
unfolding little_endian
jump_target (op ∷ d ∷ []) = if op == 0xEB then some (add32 2 (sext8 d)) else none
jump_target (op ∷ a ∷ b ∷ c ∷ d ∷ []) =
    if op == 0xE9 || op == 0xE8 then some (add32 5 (little_endian (a ∷ b ∷ c ∷ d ∷ []))) else none
jump_target _ = none

-- The condition code of a conditional jump and where it leads.
unfoldable pub cond_jump_target : List ℕ → Option (ℕ × ℕ)
unfolding little_endian
cond_jump_target (op ∷ d ∷ []) = if op / 16 == 7 then some (op % 16, add32 2 (sext8 d)) else none
cond_jump_target (prefix ∷ op ∷ a ∷ b ∷ c ∷ d ∷ []) =
    if prefix == 0x0F && op / 16 == 8
    then some (op % 16, add32 6 (little_endian (a ∷ b ∷ c ∷ d ∷ [])))
    else none
cond_jump_target _ = none

-- The fields of a ModRM byte: mode, register (or extension of the opcode), register or memory.
abbrev pub modrm_mode : ℕ → ℕ
modrm_mode modrm = modrm / 64

abbrev pub modrm_reg : ℕ → ℕ
modrm_reg modrm = modrm / 8 % 8

abbrev pub modrm_rm : ℕ → ℕ
modrm_rm modrm = modrm % 8

-- An instruction of an immediate and a 32-bit register: the opcode's group, its extension, the
-- register and the value that the processor computes with. 0x83 extends the sign of a byte.
unfoldable pub register_immediate : List ℕ → Option (ℕ × ℕ × ℕ × ℕ)
unfolding little_endian
register_immediate (op ∷ modrm ∷ d ∷ []) =
    if modrm_mode modrm == 3
    then (if op == 0x83
        then some (0x80, modrm_reg modrm, modrm_rm modrm, sext8 d)
        else (if op == 0xC1 then some (0xC0, modrm_reg modrm, modrm_rm modrm, d) else none))
    else none
register_immediate (op ∷ modrm ∷ a ∷ b ∷ c ∷ d ∷ []) =
    let value = little_endian (a ∷ b ∷ c ∷ d ∷ []) in
    if modrm_mode modrm == 3
    then (if op == 0x81
        then some (0x80, modrm_reg modrm, modrm_rm modrm, value)
        else (if op == 0xC7 then some (0xC6, modrm_reg modrm, modrm_rm modrm, value) else none))
    else none
register_immediate _ = none

-- The displacement of a memory operand, from the ModRM byte and the bytes behind it: its register
-- and its value. A base of `ESP` takes another byte, and `EBP` without a displacement is absolute.
unfoldable pub displacement : List ℕ → Option (ℕ × ℕ × ℕ)
unfolding little_endian
displacement (modrm ∷ []) =
    if modrm_mode modrm == 0 && not (modrm_rm modrm == 4) && not (modrm_rm modrm == 5)
    then some (modrm_reg modrm, modrm_rm modrm, 0)
    else none
displacement (modrm ∷ d ∷ []) =
    if modrm_mode modrm == 1 && not (modrm_rm modrm == 4)
    then some (modrm_reg modrm, modrm_rm modrm, sext8 d)
    else none
displacement (modrm ∷ a ∷ b ∷ c ∷ d ∷ []) =
    if modrm_mode modrm == 2 && not (modrm_rm modrm == 4)
    then some (modrm_reg modrm, modrm_rm modrm, little_endian (a ∷ b ∷ c ∷ d ∷ []))
    else none
displacement _ = none
