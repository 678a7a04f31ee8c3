-- ===== src/Mips/MemoryMap/Unaligned.antt =====
-- `lwl` and `lwr`: `load_word_left` and `load_word_right` of src/mips/memory_map.cpp.
use native.Mathlib.Nat.{one-le-pow, mod-lt, div-add-mod'}
use ji_tboy.Base.{
  ℕ, zero, suc, ◌+◌, ◌-◌, ◌*◌, ◌/◌, ◌%◌, ◌^◌, ◌<◌, ◌≡◌, refl, ◌∙◌, arith, bit_and, bit_or, u32,
  not32, IsU32, ◌<<<◌, ◌>>>◌,
}
use ji_tboy.Bits.Field.{
  bit_and_split, bit_and-zero, mask_bit_and, bit_and_comm, bit_or_high, bit_or_comm, and_ones,
}
use ji_tboy.Mips.MemoryMap.{
  MemoryMap, load_word_left, load_word_right, create_high_bitmask, create_low_bitmask,
}
use ji_tboy.Mips.MemoryMap.Bytes.{byte_of, byte_at, IsWords}

-- `(mask & high) | (~mask & low)` for a mask of ones from digit `k` up.
merge :
    (k t high low mask rest : ℕ)
    → mask ≡ (2 ^ t - 1) * 2 ^ k
    → rest ≡ 2 ^ k - 1
    → high / 2 ^ k < 2 ^ t
    → bit_or (bit_and mask high) (bit_and rest low) ≡ high / 2 ^ k * 2 ^ k + low % 2 ^ k
merge k t high low mask rest e d h =
    let pos = one-le-pow k 2 (omega arith) in
    let kept : bit_and mask high ≡ high / 2 ^ k * 2 ^ k = ground (
      arith,
      bit_and_comm mask high,
      div-add-mod' high (2 ^ k),
      mod-lt high pos,
      bit_and_split k (high / 2 ^ k) (2 ^ t - 1) (high % 2 ^ k) 0,
      bit_and-zero (high % 2 ^ k),
      and_ones t (high / 2 ^ k) h,
    ) in
    rw (kept, d, mask_bit_and k low) (bit_or_high k (high / 2 ^ k) (low % 2 ^ k) (mod-lt low pos))

-- The same with the parts in the other order.
merge_flipped :
    (k t high low mask rest : ℕ)
    → rest ≡ (2 ^ t - 1) * 2 ^ k
    → mask ≡ 2 ^ k - 1
    → high / 2 ^ k < 2 ^ t
    → bit_or (bit_and mask low) (bit_and rest high) ≡ high / 2 ^ k * 2 ^ k + low % 2 ^ k
merge_flipped k t high low mask rest e d h =
    bit_or_comm (bit_and mask low) (bit_and rest high) ∙ merge k t high low rest mask e d h

-- The body of `load_word_left` at an offset.
left : ℕ → ℕ → ℕ → ℕ
left offset raw_word in_word =
    let new_mask = create_high_bitmask ((4 - offset) * 8) in
    bit_or (bit_and new_mask (u32 (raw_word <<< (offset * 8)))) (bit_and (not32 new_mask) in_word)

right : ℕ → ℕ → ℕ → ℕ
right offset raw_word in_word =
    let new_mask = create_low_bitmask ((1 + offset) * 8) in
    bit_or (bit_and new_mask (raw_word >>> ((4 - (1 + offset)) * 8)))
      (bit_and (not32 new_mask) in_word)

-- The bytes from the offset on go to the top, and the rest of the register stays.
merged_left : ℕ → ℕ → ℕ → ℕ
merged_left zero raw reg = raw
merged_left (suc zero) raw reg = raw % 2 ^ 24 * 2 ^ 8 + reg % 2 ^ 8
merged_left (suc (suc zero)) raw reg = raw % 2 ^ 16 * 2 ^ 16 + reg % 2 ^ 16
merged_left (suc (suc (suc _))) raw reg = raw % 2 ^ 8 * 2 ^ 24 + reg % 2 ^ 24

merged_right : ℕ → ℕ → ℕ → ℕ
merged_right zero raw reg = reg / 2 ^ 8 * 2 ^ 8 + raw / 2 ^ 24
merged_right (suc zero) raw reg = reg / 2 ^ 16 * 2 ^ 16 + raw / 2 ^ 16
merged_right (suc (suc zero)) raw reg = reg / 2 ^ 24 * 2 ^ 24 + raw / 2 ^ 8
merged_right (suc (suc (suc _))) raw reg = raw

module _ (raw reg : ℕ) (f : IsU32 raw) (g : IsU32 reg) where
  left_lem : (o : ℕ) → o < 4 → left o raw reg ≡ merged_left o raw reg
  unfolding left merged_left create_high_bitmask
  left_lem zero h =
      merge 0 32 (u32 (raw <<< 0)) reg 0xffff_ffff 0 refl refl (omega arith) ∙ omega arith
  left_lem (suc zero) h =
      merge 8 24 (u32 (raw <<< 8)) reg 0xffff_ff00 0xff refl refl (omega arith) ∙ omega arith
  left_lem (suc (suc zero)) h =
      merge 16 16 (u32 (raw <<< 16)) reg 0xffff_0000 0xffff refl refl (omega arith) ∙ omega arith
  left_lem (suc (suc (suc zero))) h =
      merge 24 8 (u32 (raw <<< 24)) reg 0xff00_0000 0xff_ffff refl refl (omega arith) ∙ omega arith
  left_lem (suc (suc (suc (suc o)))) h = absurd (omega arith)

  right_lem : (o : ℕ) → o < 4 → right o raw reg ≡ merged_right o raw reg
  unfolding right merged_right create_low_bitmask
  right_lem zero h =
      merge_flipped 8 24 reg (raw >>> 24) 0xff 0xffff_ff00 refl refl (omega arith) ∙ omega arith
  right_lem (suc zero) h =
      merge_flipped 16 16 reg (raw >>> 16) 0xffff 0xffff_0000 refl refl (omega arith) ∙ omega arith
  right_lem (suc (suc zero)) h =
      merge_flipped 24 8 reg (raw >>> 8) 0xff_ffff 0xff00_0000 refl refl (omega arith) ∙ omega arith
  right_lem (suc (suc (suc zero))) h =
      merge_flipped 32 0 reg (raw >>> 0) 0xffff_ffff 0 refl refl (omega arith) ∙ omega arith
  right_lem (suc (suc (suc (suc o)))) h = absurd (omega arith)

  merged_left-lt : (o : ℕ) → o < 4 → IsU32 (merged_left o raw reg)
  unfolding merged_left
  merged_left-lt (suc (suc (suc zero))) h = omega arith
  merged_left-lt o h = omega arith

-- Reads at an address whose offset and word are known.
module _ (m : MemoryMap) (f : IsWords m) (addr o key : ℕ) (e : addr % 4 ≡ o)
    (k : addr - o ≡ key) where
  byte_lem : byte_at m addr ≡ byte_of o (m.map key)
  unfolding byte_at
  byte_lem = rw (e, k)

  load_left_lem : (reg : ℕ) → IsU32 reg → load_word_left m addr reg ≡ merged_left o (m.map key) reg
  unfolding load_word_left left
  load_left_lem reg g = rw (e, k) (left_lem (m.map key) reg (f key) g o (omega arith))

  load_right_lem :
      (reg : ℕ) → IsU32 reg → load_word_right m addr reg ≡ merged_right o (m.map key) reg
  unfolding load_word_right right
  load_right_lem reg g = rw (e, k) (right_lem (m.map key) reg (f key) g o (omega arith))

abbrev pub big_endian : ℕ → ℕ → ℕ → ℕ → ℕ
big_endian a b c d = ((a * 0x100 + b) * 0x100 + c) * 0x100 + d

-- By the offset of the first byte: one word at offset 0, two words elsewhere.
unaligned :
    (m : MemoryMap) (f : IsWords m) (addr reg o : ℕ)
    → IsU32 reg
    → addr % 4 ≡ o
    → load_word_right m (addr + 3) (load_word_left m addr reg)
      ≡ big_endian
          (byte_at m addr)
          (byte_at m (addr + 1))
          (byte_at m (addr + 2))
          (byte_at m (addr + 3))
unfolding merged_left merged_right
unaligned m f addr reg zero g e =
    rw
      (
        load_left_lem m f addr 0 addr e (omega arith) reg g,
        load_right_lem m f (addr + 3) 3 addr (omega arith) (omega arith) (m.map addr) (f addr),
        byte_lem m f addr 0 addr e (omega arith),
        byte_lem m f (addr + 1) 1 addr (omega arith) (omega arith),
        byte_lem m f (addr + 2) 2 addr (omega arith) (omega arith),
        byte_lem m f (addr + 3) 3 addr (omega arith) (omega arith),
      )
      (omega (arith, f addr))
unaligned m f addr reg (suc zero) g e =
    let low = addr - 1 in
    let high = addr + 3 in
    let x = merged_left 1 (m.map low) reg in
    rw
      (
        load_left_lem m f addr 1 low e refl reg g,
        load_right_lem m f (addr + 3) 0 high (omega arith) (omega arith) x
            (merged_left-lt (m.map low) reg (f low) g 1 (omega arith)),
        byte_lem m f addr 1 low e refl,
        byte_lem m f (addr + 1) 2 low (omega arith) (omega arith),
        byte_lem m f (addr + 2) 3 low (omega arith) (omega arith),
        byte_lem m f (addr + 3) 0 high (omega arith) (omega arith),
      )
      (omega (arith, f low, f high))
unaligned m f addr reg (suc (suc zero)) g e =
    let low = addr - 2 in
    let high = addr + 2 in
    let x = merged_left 2 (m.map low) reg in
    rw
      (
        load_left_lem m f addr 2 low e refl reg g,
        load_right_lem m f (addr + 3) 1 high (omega arith) (omega arith) x
            (merged_left-lt (m.map low) reg (f low) g 2 (omega arith)),
        byte_lem m f addr 2 low e refl,
        byte_lem m f (addr + 1) 3 low (omega arith) (omega arith),
        byte_lem m f (addr + 2) 0 high (omega arith) (omega arith),
        byte_lem m f (addr + 3) 1 high (omega arith) (omega arith),
      )
      (omega (arith, f low, f high))
unaligned m f addr reg (suc (suc (suc zero))) g e =
    let low = addr - 3 in
    let high = addr + 1 in
    let x = merged_left 3 (m.map low) reg in
    rw
      (
        load_left_lem m f addr 3 low e refl reg g,
        load_right_lem m f (addr + 3) 2 high (omega arith) (omega arith) x
            (merged_left-lt (m.map low) reg (f low) g 3 (omega arith)),
        byte_lem m f addr 3 low e refl,
        byte_lem m f (addr + 1) 0 high (omega arith) (omega arith),
        byte_lem m f (addr + 2) 1 high (omega arith) (omega arith),
        byte_lem m f (addr + 3) 2 high (omega arith) (omega arith),
      )
      (omega (arith, f low, f high))
unaligned m f addr reg (suc (suc (suc (suc o)))) g e = absurd (omega arith)

-- In a memory of 32-bit words, `lwl $r, addr` then `lwr $r, addr + 3` load the big-endian word of
-- the four bytes from `addr` on, at every alignment, whatever 32-bit value the register held.
pub load_word-unaligned :
    (m : MemoryMap) (addr reg : ℕ)
    → IsWords m
    → IsU32 reg
    → load_word_right m (addr + 3) (load_word_left m addr reg)
      ≡ big_endian
          (byte_at m addr)
          (byte_at m (addr + 1))
          (byte_at m (addr + 2))
          (byte_at m (addr + 3))
load_word-unaligned m addr reg f g = unaligned m f addr reg (addr % 4) g refl
