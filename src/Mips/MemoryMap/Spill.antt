-- ===== src/Mips/MemoryMap/Spill.antt =====
-- A byte store whose register holds more than a byte: src/mips/memory_map.hpp shifts the whole
-- value into the word and masks only the old contents.
use ji_tboy.Base.{
  ℕ, zero, suc, ◌+◌, ◌-◌, ◌/◌, ◌%◌, ◌^◌, ◌<◌, ◌≡◌, ◌≢◌, refl, ap₂, arith, ◌==◌, if◌then◌else◌,
  bit_and, bit_or, bit_xor, u32, IsU32, ◌<<<◌, Outcome, ok, ◌>>=◌, bind-post,
}
use ji_tboy.Bits.Slice.{bit_and_clear, bit_or-div, bit_or-mod}
use ji_tboy.Mips.MemoryMap.{MemoryMap, write, ubyte, shamt}
use ji_tboy.Mips.MemoryMap.Bytes.{byte_of, byte_at, IsWords}

or_eq : (a b c d : ℕ) → a ≡ c → b ≡ d → bit_or a b ≡ bit_or c d
or_eq a b c d p q = ap₂ bit_or p q

-- The byte above the stored one, in the word that the store leaves.
module _ (word value : ℕ) (f : IsU32 word) where
  above_first :
      bit_or (bit_and word 0xff00_ffff) (u32 (value <<< 16)) / 2 ^ 24
      ≡ bit_or (word / 2 ^ 24) (value / 0x100 % 0x100)
  above_first =
      rw (bit_or-div 24, bit_and_clear 16 8 8 word 0xff00_ffff refl (omega arith))
        (or_eq _ _ _ _ (omega arith) (omega arith))

  above_second :
      bit_or (bit_and word 0xffff_00ff) (u32 (value <<< 8)) / 2 ^ 16 % 2 ^ 8
      ≡ bit_or (word / 2 ^ 16 % 0x100) (value / 0x100 % 0x100)
  above_second =
      rw (bit_or-div 16, bit_or-mod 8, bit_and_clear 8 8 16 word 0xffff_00ff refl (omega arith))
        (or_eq _ _ _ _ (omega arith) (omega arith))

  above_third :
      bit_or (bit_and word 0xffff_ff00) (u32 (value <<< 0)) / 2 ^ 8 % 2 ^ 8
      ≡ bit_or (word / 2 ^ 8 % 0x100) (value / 0x100 % 0x100)
  above_third =
      rw (bit_or-div 8, bit_or-mod 8, bit_and_clear 0 8 24 word 0xffff_ff00 refl (omega arith))
        (or_eq _ _ _ _ (omega arith) (omega arith))

-- What `write<uint8_t>` leaves at its key.
stored : ℕ → ℕ → ℕ → Outcome ℕ
stored o word value = do
  s ← shamt ubyte o
  ok (bit_or (bit_and word (bit_xor 0xffff_ffff (u32 (0xff <<< s)))) (u32 (value <<< s)))

stored_above :
    (o word value : ℕ)
    → o < 3
    → IsU32 word
    → (word' : ℕ) × (stored (suc o) word value ≡ ok word')
      × (byte_of o word' ≡ bit_or (byte_of o word) (value / 0x100 % 0x100))
unfolding stored
stored_above zero word value h f = (_, refl, above_first word value f)
stored_above (suc zero) word value h f = (_, refl, above_second word value f)
stored_above (suc (suc zero)) word value h f = (_, refl, above_third word value f)
stored_above (suc (suc (suc o))) word value h f = absurd (omega arith)

abbrev updated : MemoryMap → ℕ → ℕ → MemoryMap
updated m key word = record { map = λ a. if a == key then word else m.map a }

write_of_stored :
    (m : MemoryMap) (addr value o key word : ℕ)
    → addr % 4 ≡ o
    → addr - o ≡ key
    → stored o (m.map key) value ≡ ok word
    → write ubyte m addr value ≡ ok (updated m key word)
unfolding write stored
write_of_stored m addr value o key word p q saved =
    rw (p, q) (bind-post (updated m key) _ (shamt ubyte o) word saved)

-- In a memory of 32-bit words, a byte store at an address that does not start a word ORs the
-- second byte of its value into the byte before the one addressed.
pub write-byte_spills :
    (m : MemoryMap) (addr value : ℕ)
    → IsWords m
    → (addr + 1) % 4 ≢ 0
    → (m' : MemoryMap) × (write ubyte m (addr + 1) value ≡ ok m')
      × (byte_at m' addr ≡ bit_or (byte_at m addr) (value / 0x100 % 0x100))
unfolding byte_at
write-byte_spills m addr value f ne =
    let key = addr - addr % 4 in
    let (word', saved, above) = stored_above (addr % 4) (m.map key) value (omega arith) (f key) in
    (
      updated m key word',
      write_of_stored m (addr + 1) value (suc (addr % 4)) key word' (omega arith) (omega arith)
          saved,
      ground (arith, above),
    )
