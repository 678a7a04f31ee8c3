-- ===== src/Mips/MemoryMap/Bounds.antt =====
-- Loads give words, and stores keep the memory a memory of words: src/mips/memory_map.hpp.
use ji_tboy.Base.{
  ℕ, ◌-◌, ◌%◌, arith, ◌==◌, bit_and, bit_or, IsU32, Holds, Holds-map, Bool-cases, inl, inr,
}
use ji_tboy.Bits.Bound.{bit_or-lt, bit_and-lt, bit_xor-lt}
use ji_tboy.Mips.MemoryMap.{
  MemoryMap, read_word, write_word, read, write, Width, shamt, convert, load_word_left,
  load_word_right, create_high_bitmask, create_low_bitmask,
}
use ji_tboy.Mips.MemoryMap.Bytes.{IsWords}

or_and-lt : (a b c d : ℕ) → IsU32 a → IsU32 c → IsU32 (bit_or (bit_and a b) (bit_and c d))
or_and-lt a b c d h g =
    bit_or-lt 32 (bit_and a b) (bit_and c d) (bit_and-lt 32 a b h) (bit_and-lt 32 c d g)

convert-lt : (w : Width) (x : ℕ) → IsU32 (convert w x)
convert-lt Width.byte x = ground arith
convert-lt Width.ubyte x = omega arith
convert-lt Width.half x = ground arith
convert-lt Width.uhalf x = omega arith

pub read-lt : (w : Width) (m : MemoryMap) (addr : ℕ) → Holds IsU32 (read w m addr)
unfolding read
read-lt w m addr = Holds-map IsU32 (shamt w (addr % 4)) _ (λ s. convert-lt w _)

pub read_word-lt : (m : MemoryMap) (addr : ℕ) → IsWords m → IsU32 (read_word m addr)
unfolding read_word
read_word-lt m addr f = f addr

pub write_word-IsWords :
    (m : MemoryMap) (addr word : ℕ) → IsWords m → IsU32 word → IsWords (write_word m addr word)
unfolding write_word
write_word-IsWords m addr word f h a = ground (arith, f a)

pub write-IsWords :
    (w : Width) (m : MemoryMap) (addr value : ℕ) → IsWords m → Holds IsWords (write w m addr value)
unfolding write
write-IsWords w m addr value f = Holds-map IsWords (shamt w (addr % 4)) _ (λ s a.
    elim (Bool-cases (a == addr - addr % 4)) [
      | inl e ↦ rw e (bit_or-lt 32 _ _ (bit_and-lt 32 _ _ (f _)) (omega arith))
      | inr e ↦ rw e (f a)
    ])

high-lt : (bits : ℕ) → IsU32 (create_high_bitmask bits)
unfolding create_high_bitmask
high-lt bits = ground arith

low-lt : (bits : ℕ) → IsU32 (create_low_bitmask bits)
unfolding create_low_bitmask
low-lt bits = elim (Bool-cases (bits == 32)) [
  | inl e ↦ rw e (omega arith)
  | inr e ↦ rw e (bit_xor-lt 32 0xffff_ffff _ (omega arith) (omega arith))
]

pub load_word_left-lt : (m : MemoryMap) (addr word : ℕ) → IsU32 (load_word_left m addr word)
unfolding load_word_left
load_word_left-lt m addr word = or_and-lt _ _ _ _ (high-lt _) (omega arith)

pub load_word_right-lt : (m : MemoryMap) (addr word : ℕ) → IsU32 (load_word_right m addr word)
unfolding load_word_right
load_word_right-lt m addr word = or_and-lt _ _ _ _ (low-lt _) (omega arith)
