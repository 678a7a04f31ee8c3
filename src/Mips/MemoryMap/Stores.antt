-- ===== src/Mips/MemoryMap/Stores.antt =====
-- What the narrow stores of src/mips/memory_map.hpp do to the bytes of the memory.
use ji_tboy.Base.{
  ℕ, zero, suc, ◌+◌, ◌-◌, ◌*◌, ◌/◌, ◌%◌, ◌^◌, ◌<◌, ◌≡◌, refl, ap, arith, ◌==◌, if◌then◌else◌,
  bit_and, bit_or, bit_xor, u32, IsU32, ◌<<<◌, Outcome, ok, err, bind-post, undefined, ◌>>=◌,
}
use ji_tboy.Bits.Slice.{bit_and_clear}
use ji_tboy.Bits.Field.{bit_or_place}
use ji_tboy.Mips.MemoryMap.{MemoryMap, write, Width, ubyte, uhalf, shamt, ones}
use ji_tboy.Mips.MemoryMap.Bytes.{byte_of, byte_at, IsWords}

ok_eq : {a b : ℕ} → a ≡ b → ok a ≡ ok b
ok_eq h = ap ok h

-- The word that a store leaves.
save : Width → ℕ → ℕ → ℕ → Outcome ℕ
save w offset word value = do
  s ← shamt w offset
  ok (bit_or (bit_and word (bit_xor 0xffff_ffff (u32 (ones w <<< s)))) (u32 (value <<< s)))

-- A value that fits its `w` bits replaces the field at the shift `s`.
replaced :
    (s w t word mask value : ℕ)
    → mask ≡ (2 ^ t - 1) * 2 ^ w * 2 ^ s + (2 ^ s - 1)
    → word / 2 ^ s / 2 ^ w < 2 ^ t
    → value < 2 ^ w
    → u32 (value * 2 ^ s) ≡ value * 2 ^ s
    → word % 2 ^ s < 2 ^ s
    → bit_or (bit_and word mask) (u32 (value <<< s))
      ≡ (word / 2 ^ s / 2 ^ w * 2 ^ w + value) * 2 ^ s + word % 2 ^ s
replaced s w t word mask value e h hv small low =
    rw (small, bit_and_clear s w t word mask e h)
      (bit_or_place s w (word / 2 ^ s / 2 ^ w) value (word % 2 ^ s) _ refl hv low)

-- The word with the byte, or the half word, at an offset replaced.
abbrev with_byte : ℕ → ℕ → ℕ → ℕ
with_byte zero word value = value * 2 ^ 24 + word % 2 ^ 24
with_byte (suc zero) word value = (word / 2 ^ 24 * 2 ^ 8 + value) * 2 ^ 16 + word % 2 ^ 16
with_byte (suc (suc zero)) word value = (word / 2 ^ 16 * 2 ^ 8 + value) * 2 ^ 8 + word % 2 ^ 8
with_byte (suc (suc (suc _))) word value = word / 2 ^ 8 * 2 ^ 8 + value

abbrev with_half : ℕ → ℕ → ℕ → ℕ
with_half zero word value = value * 2 ^ 16 + word % 2 ^ 16
with_half (suc zero) word value = (word / 2 ^ 24 * 2 ^ 16 + value) * 2 ^ 8 + word % 2 ^ 8
with_half (suc (suc _)) word value = word / 2 ^ 16 * 2 ^ 16 + value

module _ (word value : ℕ) (f : IsU32 word) where
  save_ubyte :
      (o : ℕ) → o < 4 → value < 0x100 → save ubyte o word value ≡ ok (with_byte o word value)
  unfolding save
  save_ubyte zero h v =
      rw (replaced 24 8 0 word 0x00ff_ffff value refl (omega arith) v (omega arith) (omega arith))
        (ok_eq (omega arith))
  save_ubyte (suc zero) h v =
      rw (replaced 16 8 8 word 0xff00_ffff value refl (omega arith) v (omega arith) (omega arith))
        (ok_eq (omega arith))
  save_ubyte (suc (suc zero)) h v =
      rw (replaced 8 8 16 word 0xffff_00ff value refl (omega arith) v (omega arith) (omega arith))
        (ok_eq (omega arith))
  save_ubyte (suc (suc (suc zero))) h v =
      rw (replaced 0 8 24 word 0xffff_ff00 value refl (omega arith) v (omega arith) (omega arith))
        (ok_eq (omega arith))
  save_ubyte (suc (suc (suc (suc o)))) h v = absurd (omega arith)

  save_uhalf :
      (o : ℕ) → o < 3 → value < 0x1_0000 → save uhalf o word value ≡ ok (with_half o word value)
  unfolding save
  save_uhalf zero h v =
      rw (replaced 16 16 0 word 0x0000_ffff value refl (omega arith) v (omega arith) (omega arith))
        (ok_eq (omega arith))
  save_uhalf (suc zero) h v =
      rw (replaced 8 16 8 word 0xff00_00ff value refl (omega arith) v (omega arith) (omega arith))
        (ok_eq (omega arith))
  save_uhalf (suc (suc zero)) h v =
      rw (replaced 0 16 16 word 0xffff_0000 value refl (omega arith) v (omega arith) (omega arith))
        (ok_eq (omega arith))
  save_uhalf (suc (suc (suc o))) h v = absurd (omega arith)

  with_byte-lt : (o : ℕ) → o < 4 → value < 0x100 → IsU32 (with_byte o word value)
  with_byte-lt (suc (suc (suc zero))) h v = omega arith
  with_byte-lt o h v = omega arith

  with_half-lt : (o : ℕ) → o < 3 → value < 0x1_0000 → IsU32 (with_half o word value)
  with_half-lt (suc (suc zero)) h v = omega arith
  with_half-lt o h v = omega arith

  byte_of-with_byte :
      (o k : ℕ)
      → o < 4
      → k < 4
      → value < 0x100
      → byte_of k (with_byte o word value) ≡ (if o == k then value else byte_of k word)
  byte_of-with_byte zero (suc (suc (suc zero))) h g v = omega arith
  byte_of-with_byte (suc zero) (suc (suc (suc zero))) h g v = omega arith
  byte_of-with_byte (suc (suc zero)) (suc (suc (suc zero))) h g v = omega arith
  byte_of-with_byte (suc (suc (suc zero))) (suc (suc (suc zero))) h g v = omega arith
  byte_of-with_byte o k h g v = omega arith

  byte_of-with_half :
      (o k : ℕ)
      → o < 3
      → k < 4
      → value < 0x1_0000
      → byte_of k (with_half o word value)
        ≡ (if o == k then value / 0x100 else if o + 1 == k then value % 0x100 else byte_of k word)
  byte_of-with_half zero (suc (suc (suc zero))) h g v = omega arith
  byte_of-with_half (suc zero) (suc (suc (suc zero))) h g v = omega arith
  byte_of-with_half (suc (suc zero)) (suc (suc (suc zero))) h g v = omega arith
  byte_of-with_half o k h g v = omega arith

abbrev updated : MemoryMap → ℕ → ℕ → MemoryMap
updated m key word = record { map = λ a. if a == key then word else m.map a }

-- In a memory of 32-bit words, a byte store of a value that fits a byte succeeds, writes it at its
-- address, changes no other byte and leaves 32-bit words.
pub write-byte_at :
    (m : MemoryMap) (addr value : ℕ)
    → IsWords m
    → value < 0x100
    → (m' : MemoryMap) × (write ubyte m addr value ≡ ok m')
      × IsWords m'
      × ((b : ℕ) → byte_at m' b ≡ (if addr == b then value else byte_at m b))
unfolding write save byte_at
write-byte_at m addr value f v =
    let key = addr - addr % 4 in
    let saved = save_ubyte (m.map key) value (f key) (addr % 4) (omega arith) v in
    (
      updated m key (with_byte (addr % 4) (m.map key) value),
      bind-post (updated m key) _ (shamt ubyte (addr % 4)) _ saved,
      λ a. ground (arith, f a, with_byte-lt (m.map key) value (f key) (addr % 4)),
      λ b. ground (arith, byte_of-with_byte (m.map key) value (f key) (addr % 4) (b % 4)),
    )

-- In a memory of 32-bit words, a half word store of a value that fits, at any but the last offset
-- of a word, succeeds, writes its two bytes, the high one first, changes no other byte and leaves
-- 32-bit words.
pub write-half_at :
    (m : MemoryMap) (addr value : ℕ)
    → IsWords m
    → value < 0x1_0000
    → addr % 4 < 3
    → (m' : MemoryMap) × (write uhalf m addr value ≡ ok m')
      × IsWords m'
      × ((b : ℕ)
          → byte_at m' b ≡ (
              if addr == b
              then value / 0x100
              else if addr + 1 == b
              then value % 0x100
              else byte_at m b))
unfolding write save byte_at
write-half_at m addr value f v h =
    let key = addr - addr % 4 in
    (
      updated m key (with_half (addr % 4) (m.map key) value),
      bind-post (updated m key) _ (shamt uhalf (addr % 4)) _
          (save_uhalf (m.map key) value (f key) (addr % 4) h v),
      λ a. ground (arith, f a, with_half-lt (m.map key) value (f key) (addr % 4)),
      λ b. ground (arith, byte_of-with_half (m.map key) value (f key) (addr % 4) (b % 4)),
    )

-- At the last offset of a word the shift is by a negative amount.
write-half_undefined :
    (m : MemoryMap) (addr value : ℕ) → addr % 4 ≡ 3 → write uhalf m addr value ≡ err undefined
unfolding write
write-half_undefined m addr value h = rw h refl
