-- ===== src/X86/Assembler/JumpTarget.antt =====
-- Where the jumps that src/x86/assembler.hpp emits lead.
use ji_tboy.Base.{
  ℕ, ◌*◌, ◌/◌, ◌%◌, ◌≡◌, ◌<◌, refl, ◌∙◌, ap, arith, true, false, Bool-cases, inl, inr,
  if◌then◌else◌, List, ◌∷◌, length, some, bit_or, u8, IsU32, sext8, add32, is_neg32,
}
use ji_tboy.Bits.Field.{bit_or_low}
use ji_tboy.VectorBuffer.{bytes}
use ji_tboy.X86.Isa.{CondCode, cond_code}
use ji_tboy.X86.Assembler.{Assembler, JumpAdjust, count, write, is_8_bit}
use ji_tboy.X86.Assembler.Jump.{adjust_offset, is_near_jump, jump, jump_cond, call}
use ji_tboy.X86.Assembler.Emission.{Emits, write_2-Emits, write_3-Emits, little_endian-bytes}
use ji_tboy.X86.Decode.{little_endian, jump_target, cond_jump_target}

-- The target that a caller asks for, counted from the first byte of the jump: `offset` counts from
-- there (`always`), from its end (`never`), or from there if it leads back (`auto`).
unfoldable pub wanted : JumpAdjust → ℕ → ℕ → ℕ
wanted JumpAdjust.always offset size = offset
wanted JumpAdjust.never offset size = add32 size offset
wanted JumpAdjust.auto offset size = if is_neg32 offset then offset else add32 size offset

adjusted-wanted :
    (adjust : JumpAdjust) (offset size : ℕ)
    → IsU32 offset
    → size < 16
    → add32 size (adjust_offset adjust offset size) ≡ wanted adjust offset size
unfolding adjust_offset wanted
adjusted-wanted JumpAdjust.always offset size h g = omega arith
adjusted-wanted JumpAdjust.never offset size h g = refl
adjusted-wanted JumpAdjust.auto offset size h g = ground arith

adjusted-lt :
    (adjust : JumpAdjust) (offset size : ℕ)
    → IsU32 offset
    → IsU32 (adjust_offset adjust offset size)
unfolding adjust_offset
adjusted-lt JumpAdjust.always offset size h = omega arith
adjusted-lt JumpAdjust.never offset size h = h
adjusted-lt JumpAdjust.auto offset size h = ground arith

-- A jump that is near has a displacement of one byte.
near-sext8 :
    (adjust : JumpAdjust) (offset : ℕ)
    → IsU32 offset
    → is_near_jump adjust offset ≡ true
    → sext8 (u8 (adjust_offset adjust offset 2)) ≡ adjust_offset adjust offset 2
unfolding adjust_offset is_near_jump is_8_bit
near-sext8 JumpAdjust.always offset h n = ground arith
near-sext8 JumpAdjust.never offset h n = ground arith
near-sext8 JumpAdjust.auto offset h n = ground arith

near_target :
    (adjust : JumpAdjust) (offset : ℕ)
    → IsU32 offset
    → is_near_jump adjust offset ≡ true
    → add32 2 (sext8 (u8 (adjust_offset adjust offset 2))) ≡ wanted adjust offset 2
near_target adjust offset h n =
    ap (add32 2) (near-sext8 adjust offset h n) ∙ adjusted-wanted adjust offset 2 h (omega arith)

far_target :
    (adjust : JumpAdjust) (offset size : ℕ)
    → IsU32 offset
    → size < 16
    → add32 size (little_endian (bytes 4 (adjust_offset adjust offset size)))
      ≡ wanted adjust offset size
far_target adjust offset size h g =
    ap (add32 size)
      (little_endian-bytes 4 (adjust_offset adjust offset size) (adjusted-lt adjust offset size h))
    ∙ adjusted-wanted adjust offset size h g

jump_near :
    (adjust : JumpAdjust) (offset : ℕ) (a : Assembler)
    → is_near_jump adjust offset ≡ true
    → jump adjust offset a ≡ write 1 (adjust_offset adjust offset 2) (write 1 0xEB (count a))
unfolding jump
jump_near adjust offset a n = rw n refl

jump_far :
    (adjust : JumpAdjust) (offset : ℕ) (a : Assembler)
    → is_near_jump adjust offset ≡ false
    → jump adjust offset a ≡ write 4 (adjust_offset adjust offset 5) (write 1 0xE9 (count a))
unfolding jump
jump_far adjust offset a n = rw n refl

-- For a 32-bit offset, `jump` appends one instruction, in which the processor reads the target
-- asked for.
pub jump-jump_target :
    (adjust : JumpAdjust) (offset : ℕ) (a : Assembler)
    → IsU32 offset
    → (code : List ℕ) × Emits code a (jump adjust offset a)
      × (jump_target code ≡ some (wanted adjust offset (length code)))
unfolding jump_target
jump-jump_target adjust offset a h = elim (Bool-cases (is_near_jump adjust offset)) [
  | inl n ↦ (
    u8 0xEB ∷ bytes 1 (adjust_offset adjust offset 2),
    rw (jump_near adjust offset a n) (write_2-Emits 1 0xEB (adjust_offset adjust offset 2) a),
    ap some (near_target adjust offset h n),
  )
  | inr n ↦ (
    u8 0xE9 ∷ bytes 4 (adjust_offset adjust offset 5),
    rw (jump_far adjust offset a n) (write_2-Emits 4 0xE9 (adjust_offset adjust offset 5) a),
    ap some (far_target adjust offset 5 h (omega arith)),
  )
]

-- For a 32-bit offset, `call` appends one instruction of five bytes, in which the processor reads
-- the target asked for.
pub call-jump_target :
    (adjust : JumpAdjust) (offset : ℕ) (a : Assembler)
    → IsU32 offset
    → (code : List ℕ) × Emits code a (call adjust offset a)
      × (jump_target code ≡ some (wanted adjust offset 5))
unfolding jump_target call
call-jump_target adjust offset a h = (
  u8 0xE8 ∷ bytes 4 (adjust_offset adjust offset 5),
  write_2-Emits 4 0xE8 (adjust_offset adjust offset 5) a,
  ap some (far_target adjust offset 5 h (omega arith)),
)

cond_near :
    (adjust : JumpAdjust) (cond : CondCode) (offset : ℕ) (a : Assembler)
    → is_near_jump adjust offset ≡ true
    → jump_cond adjust cond offset a
      ≡ write 1 (adjust_offset adjust offset 2) (write 1 (bit_or (cond_code cond) 0x70) (count a))
unfolding jump_cond
cond_near adjust cond offset a n = rw n refl

cond_far :
    (adjust : JumpAdjust) (cond : CondCode) (offset : ℕ) (a : Assembler)
    → is_near_jump adjust offset ≡ false
    → jump_cond adjust cond offset a
      ≡ write 4
          (adjust_offset adjust offset 6)
          (write 1 (bit_or (cond_code cond) 0x80) (write 1 0x0F (count a)))
unfolding jump_cond
cond_far adjust cond offset a n = rw n refl

cond_field :
    (c : ℕ) (high : ℕ)
    → c < 16
    → high < 16
    → (u8 (bit_or c (high * 16)) / 16 ≡ high) × (u8 (bit_or c (high * 16)) % 16 ≡ c)
cond_field c high h g = (omega (arith, bit_or_low 4 c high h), omega (arith, bit_or_low 4 c high h))

-- For a condition code of four bits and a 32-bit offset, `jump_cond` appends one instruction, in
-- which the processor reads that condition and the target asked for.
pub jump_cond-cond_jump_target :
    (adjust : JumpAdjust) (cond : CondCode) (offset : ℕ) (a : Assembler)
    → cond_code cond < 16
    → IsU32 offset
    → (code : List ℕ) × Emits code a (jump_cond adjust cond offset a)
      × (cond_jump_target code ≡ some (cond_code cond, wanted adjust offset (length code)))
unfolding cond_jump_target
jump_cond-cond_jump_target adjust cond offset a c h =
    elim (Bool-cases (is_near_jump adjust offset)) [
      | inl n ↦ (
        u8 (bit_or (cond_code cond) 0x70) ∷ bytes 1 (adjust_offset adjust offset 2),
        rw (cond_near adjust cond offset a n)
            (write_2-Emits 1 (bit_or (cond_code cond) 0x70) (adjust_offset adjust offset 2) a),
        rw
            (
              (cond_field (cond_code cond) 7 c (omega arith)).0,
              (cond_field (cond_code cond) 7 c (omega arith)).1,
              near_target adjust offset h n,
            )
            refl,
      )
      | inr n ↦ (
        u8 0x0F ∷ u8 (bit_or (cond_code cond) 0x80) ∷ bytes 4 (adjust_offset adjust offset 6),
        rw (cond_far adjust cond offset a n)
            (write_3-Emits 4 0x0F (bit_or (cond_code cond) 0x80) (adjust_offset adjust offset 6) a),
        rw
            (
              (cond_field (cond_code cond) 8 c (omega arith)).0,
              (cond_field (cond_code cond) 8 c (omega arith)).1,
              far_target adjust offset 6 h (omega arith),
            )
            refl,
      )
    ]
