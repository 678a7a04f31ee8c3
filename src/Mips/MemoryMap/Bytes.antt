-- ===== src/Mips/MemoryMap/Bytes.antt =====
-- The memory as big-endian bytes, and what the narrow loads and stores of
-- src/mips/memory_map.hpp do to them.
use ji_tboy.Base.{
  ℕ, zero, suc, ◌+◌, ◌-◌, ◌*◌, ◌/◌, ◌%◌, ◌^◌, ◌<◌, ◌≡◌, ap, arith, IsU32, sext8, sext16, ◌>>>◌,
  Outcome, ok, err, undefined, bind-post, ◌>>=◌, Bool-cases, inl, inr, ◌==◌, if◌then◌else◌, refl,
}
use ji_tboy.Mips.MemoryMap.{MemoryMap, read, Width, byte, ubyte, half, uhalf, shamt, convert}

-- The byte at an offset of a word: the first is the most significant.
abbrev pub byte_of : ℕ → ℕ → ℕ
byte_of zero word = word / 2 ^ 24
byte_of (suc zero) word = word / 2 ^ 16 % 0x100
byte_of (suc (suc zero)) word = word / 2 ^ 8 % 0x100
byte_of (suc (suc (suc _))) word = word % 0x100

unfoldable pub byte_at : MemoryMap → ℕ → ℕ
byte_at m addr = byte_of (addr % 4) (m.map (addr - addr % 4))

abbrev pub IsWords : MemoryMap → Type 0
IsWords m = (addr : ℕ) → IsU32 (m.map addr)

load : Width → ℕ → ℕ → Outcome ℕ
load w offset word = shamt w offset >>= λ s. ok (convert w (word >>> s))

load_ubyte : (o word : ℕ) → o < 4 → IsU32 word → load ubyte o word ≡ ok (byte_of o word)
unfolding load
load_ubyte zero word h f = ap ok (omega arith)
load_ubyte (suc zero) word h f = ap ok (omega arith)
load_ubyte (suc (suc zero)) word h f = ap ok (omega arith)
load_ubyte (suc (suc (suc zero))) word h f = ap ok (omega arith)
load_ubyte (suc (suc (suc (suc o)))) word h f = absurd (omega arith)

load_uhalf :
    (o word : ℕ)
    → o < 3
    → IsU32 word
    → load uhalf o word ≡ ok (byte_of o word * 0x100 + byte_of (suc o) word)
unfolding load
load_uhalf zero word h f = ap ok (omega arith)
load_uhalf (suc zero) word h f = ap ok (omega arith)
load_uhalf (suc (suc zero)) word h f = ap ok (omega arith)
load_uhalf (suc (suc (suc o))) word h f = absurd (omega arith)

-- In a memory of 32-bit words, `lbu` reads the byte at its address, and `lb` the same with its
-- sign extended.
pub read-byte_at :
    (m : MemoryMap) (addr : ℕ)
    → IsWords m
    → (read ubyte m addr ≡ ok (byte_at m addr)) × (read byte m addr ≡ ok (sext8 (byte_at m addr)))
unfolding read byte_at load
read-byte_at m addr f =
    let unsigned = load_ubyte (addr % 4) (m.map (addr - addr % 4)) (omega arith) (f _) in
    (unsigned, bind-post sext8 _ (shamt ubyte (addr % 4)) _ unsigned)

read-half_within :
    (m : MemoryMap) (addr : ℕ)
    → IsWords m
    → addr % 4 < 3
    → (read uhalf m addr ≡ ok (byte_at m addr * 0x100 + byte_at m (addr + 1)))
      × (read half m addr ≡ ok (sext16 (byte_at m addr * 0x100 + byte_at m (addr + 1))))
unfolding read byte_at load
read-half_within m addr f h =
    let next : (addr + 1) % 4 ≡ suc (addr % 4) = omega arith in
    let key : addr + 1 - suc (addr % 4) ≡ addr - addr % 4 = omega arith in
    let unsigned = load_uhalf (addr % 4) (m.map (addr - addr % 4)) h (f _) in
    rw (next, key) (unsigned, bind-post sext16 _ (shamt uhalf (addr % 4)) _ unsigned)

-- The outcome of a half word load, whose value the argument is.
abbrev pub half_outcome : ℕ → ℕ → Outcome ℕ
half_outcome addr value = if addr % 4 == 3 then err undefined else ok value

-- In a memory of 32-bit words, `lhu` reads two bytes, the first as the high one, and `lh` extends
-- their sign; at the last offset of a word both shift by a negative amount, which is undefined.
pub read-half_at :
    (m : MemoryMap) (addr : ℕ)
    → IsWords m
    → (read uhalf m addr ≡ half_outcome addr (byte_at m addr * 0x100 + byte_at m (addr + 1)))
      × (read half m addr
          ≡ half_outcome addr (sext16 (byte_at m addr * 0x100 + byte_at m (addr + 1))))
read-half_at m addr f = elim (Bool-cases (addr % 4 == 3)) [
  | inl e ↦ let h : addr % 4 ≡ 3 = ground (arith, e) in unfold read in (rw h refl, rw h refl)
  | inr e ↦ rw e (read-half_within m addr f (ground (arith, e)))
]
