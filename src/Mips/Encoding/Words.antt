-- ===== src/Mips/Encoding/Words.antt =====
-- The words of src/mips/encoding.cpp as sums of fields, and the fields of a word as remainders.
use ji_tboy.Base.{
  ℕ, ◌+◌, ◌-◌, ◌*◌, ◌/◌, ◌%◌, ◌^◌, ◌<◌, bit_and, bit_or, ◌≡◌, ◌∙◌, arith, u32, IsU32, ◌<<<◌, ◌>>>◌,
}
use ji_tboy.Bits.Field.{bit_or_low, bit_or_place, zero-bit_or, mask_bit_and}

-- The word of an immediate instruction.
pub word_i : (op rs rt c : ℕ) → ℕ
word_i op rs rt c = ((op * 2 ^ 5 + rs) * 2 ^ 5 + rt) * 2 ^ 16 + c

small : (n : ℕ) → IsU32 n → u32 n ≡ n
small n h = omega arith

pub or_fields_j :
    (op c : ℕ) → op < 64 → c < 2 ^ 26 → bit_or (bit_or 0 c) (u32 (op <<< 26)) ≡ op * 2 ^ 26 + c
or_fields_j op c ho hc = rw (zero-bit_or c, small (op <<< 26) (omega arith)) (bit_or_low 26 c op hc)

pub or_fields_i :
    (op rs rt c : ℕ)
    → op < 64
    → rs < 32
    → rt < 32
    → c < 0x1_0000
    → bit_or (bit_or (bit_or (bit_or 0 c) (u32 (op <<< 26))) (u32 (rs <<< 21))) (u32 (rt <<< 16))
      ≡ word_i op rs rt c
unfolding word_i
or_fields_i op rs rt c ho hs ht hc =
    rw
      (
        or_fields_j op c ho (omega arith),
        small (rs <<< 21) (omega arith),
        small (rt <<< 16) (omega arith),
        bit_or_place 21 5 op rs c (op * 2 ^ 26 + c) (omega arith) hs (omega arith),
      )
      (bit_or_place 16 5 (op * 2 ^ 5 + rs) rt c ((op * 2 ^ 5 + rs) * 2 ^ 21 + c) (omega arith) ht
        hc)

-- The word of a register instruction; its destination field stays empty.
pub word_r : (rs rt sa funct : ℕ) → ℕ
word_r rs rt sa funct = ((rs * 2 ^ 5 + rt) * 2 ^ 10 + sa) * 2 ^ 6 + funct

pub or_fields_r :
    (rs rt sa funct : ℕ)
    → rs < 32
    → rt < 32
    → sa < 32
    → funct < 64
    → bit_or
        (bit_or
          (bit_or (bit_or (bit_or 0 funct) (u32 (0 <<< 26))) (u32 (rs <<< 21)))
          (u32 (rt <<< 16)))
        (u32 (sa <<< 6))
      ≡ word_r rs rt sa funct
unfolding word_r
or_fields_r rs rt sa funct hs ht ha hf =
    rw
      (
        or_fields_j 0 funct (omega arith) (omega arith),
        small (rs <<< 21) (omega arith),
        small (rt <<< 16) (omega arith),
        small (sa <<< 6) (omega arith),
        bit_or_place 21 5 0 rs funct (0 * 2 ^ 26 + funct) (omega arith) hs (omega arith),
        bit_or_place 16 5 rs rt funct ((0 * 2 ^ 5 + rs) * 2 ^ 21 + funct) (omega arith) ht
            (omega arith),
      )
      (bit_or_place 6 10 (rs * 2 ^ 5 + rt) sa funct ((rs * 2 ^ 5 + rt) * 2 ^ 16 + funct)
        (omega arith) (omega arith) hf)

-- The fields that decoding cuts out.
pub opcode_field : (w : ℕ) → IsU32 w → bit_and 0b111111 (w >>> 26) ≡ w / 2 ^ 26
opcode_field w h = mask_bit_and 6 (w >>> 26) ∙ omega arith

pub five_field : (w k : ℕ) → bit_and 0b11111 (w >>> k) ≡ w / 2 ^ k % 32
five_field w k = mask_bit_and 5 (w >>> k)

pub funct_field : (w : ℕ) → bit_and 0b111111 w ≡ w % 64
funct_field w = mask_bit_and 6 w

pub constant_field : (w : ℕ) → bit_and 0xFFFF w ≡ w % 0x1_0000
constant_field w = mask_bit_and 16 w

pub target_field : (w : ℕ) → bit_and 0x03FF_FFFF w ≡ w % 0x400_0000
target_field w = mask_bit_and 26 w

pub word_i_fields :
    (op rs rt c : ℕ)
    → op < 64
    → rs < 32
    → rt < 32
    → c < 0x1_0000
    → IsU32 (word_i op rs rt c)
      × (word_i op rs rt c / 2 ^ 26 ≡ op)
      × (word_i op rs rt c / 2 ^ 21 % 32 ≡ rs)
      × (word_i op rs rt c / 2 ^ 16 % 32 ≡ rt)
      × (word_i op rs rt c % 0x1_0000 ≡ c)
unfolding word_i
word_i_fields op rs rt c ho hs ht hc = omega arith

pub word_r_fields :
    (rs rt sa funct : ℕ)
    → rs < 32
    → rt < 32
    → sa < 32
    → funct < 64
    → IsU32 (word_r rs rt sa funct)
      × (word_r rs rt sa funct / 2 ^ 26 ≡ 0)
      × (word_r rs rt sa funct / 2 ^ 21 % 32 ≡ rs)
      × (word_r rs rt sa funct / 2 ^ 16 % 32 ≡ rt)
      × (word_r rs rt sa funct / 2 ^ 11 % 32 ≡ 0)
      × (word_r rs rt sa funct / 2 ^ 6 % 32 ≡ sa)
      × (word_r rs rt sa funct % 64 ≡ funct)
unfolding word_r
word_r_fields rs rt sa funct hs ht ha hf = omega arith

-- A word put together from its own fields.
pub word_i_of_fields :
    (w : ℕ) → word_i (w / 2 ^ 26) (w / 2 ^ 21 % 32) (w / 2 ^ 16 % 32) (w % 0x1_0000) ≡ w
unfolding word_i
word_i_of_fields w = omega arith

-- The same without the five bits of the destination register.
pub word_r_of_fields :
    (w : ℕ)
    → w / 2 ^ 26 ≡ 0
    → word_r (w / 2 ^ 21 % 32) (w / 2 ^ 16 % 32) (w / 2 ^ 6 % 32) (w % 64)
      ≡ w - w / 2 ^ 11 % 32 * 2 ^ 11
unfolding word_r
word_r_of_fields w h = omega arith
