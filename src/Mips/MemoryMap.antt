-- ===== src/Mips/MemoryMap.antt =====
-- The guest's memory: src/mips/memory_map.hpp, memory_map.cpp, and the masks of src/utils/utils.hpp.
-- `_map` is an unordered_map from addresses to words that is only reached through `operator[]`,
-- which inserts 0 for a missing key: a missing key and a word 0 are the same to every operation,
-- so the map is a function. The widths are those of the instances that the emulator uses.
pub mod Bytes
pub mod Stores
pub mod Bounds
pub mod Spill
pub mod Unaligned
use ji_tboy.Base.{
  ℕ, ◌+◌, ◌-◌, ◌*◌, ◌/◌, ◌%◌, ◌==◌, if◌then◌else◌, bit_and, bit_or, bit_xor, u8, u16, u32, not32,
  sext8, sext16, ◌<<<◌, ◌>>>◌, Outcome, ok, err, undefined, ◌>>=◌, ltb,
}

pub record MemoryMap : Type 0 where
  pub map : ℕ → ℕ

abbrev pub empty : MemoryMap
empty = record { map = λ _. 0 }

unfoldable pub read_word : MemoryMap → ℕ → ℕ
read_word m addr = m.map addr

unfoldable pub write_word : MemoryMap → ℕ → ℕ → MemoryMap
write_word m addr word = record { map = λ a. if a == addr then word else m.map a }

-- `create_high_bitmask<uint32_t>` and `create_low_bitmask<uint32_t>`
unfoldable pub create_high_bitmask : ℕ → ℕ
create_high_bitmask bits = if bits == 0 then 0 else u32 (0xffff_ffff <<< (32 - bits))

unfoldable pub create_low_bitmask : ℕ → ℕ
create_low_bitmask bits =
    if bits == 32 then 0xffff_ffff else bit_xor 0xffff_ffff (u32 (0xffff_ffff <<< bits))

unfoldable pub load_word_left : MemoryMap → ℕ → ℕ → ℕ
unfolding read_word create_high_bitmask
load_word_left m addr in_word =
    let offset = addr % 4 in
    let word_addr = addr - offset in
    let raw_word = read_word m word_addr in
    let new_bytes = 4 - offset in
    let new_mask = create_high_bitmask (new_bytes * 8) in
    let new_word = bit_and new_mask (u32 (raw_word <<< (offset * 8))) in
    let old_word = bit_and (not32 new_mask) in_word in bit_or new_word old_word

unfoldable pub load_word_right : MemoryMap → ℕ → ℕ → ℕ
unfolding read_word create_low_bitmask
load_word_right m addr in_word =
    let offset = addr % 4 in
    let word_addr = addr - offset in
    let raw_word = read_word m word_addr in
    let new_bytes = 1 + offset in
    let new_mask = create_low_bitmask (new_bytes * 8) in
    let new_word = bit_and new_mask (raw_word >>> ((4 - new_bytes) * 8)) in
    let old_word = bit_and (not32 new_mask) in_word in bit_or new_word old_word

-- The width of `T` in bytes, and `static_cast<uint32_t>(static_cast<T>(x))`.
pub data Width : Type 0 where
  byte ubyte half uhalf : Width

abbrev pub size : Width → ℕ
size Width.byte = 1
size Width.ubyte = 1
size Width.half = 2
size Width.uhalf = 2

abbrev pub convert : Width → ℕ → ℕ
convert Width.byte x = sext8 (u8 x)
convert Width.ubyte x = u8 x
convert Width.half x = sext16 (u16 x)
convert Width.uhalf x = u16 x

-- The shift of a part that starts at the byte `offset`. A half word at offset 3 would shift by
-- -8, which C++ leaves undefined.
abbrev pub shamt : Width → ℕ → Outcome ℕ
shamt w offset = if ltb 4 (offset + size w) then err undefined else ok (8 * (4 - offset - size w))

-- `read<T>` for a `T` narrower than a word
unfoldable pub read : Width → MemoryMap → ℕ → Outcome ℕ
read w m addr = do
  let offset = addr % 4
  let word = m.map (addr - offset)
  s ← shamt w offset
  ok (convert w (word >>> s))

-- `static_cast<uint32_t>(T(~0))`: for a signed `T` the sign extension makes it all ones.
abbrev pub ones : Width → ℕ
ones Width.byte = 0xffff_ffff
ones Width.ubyte = 0xff
ones Width.half = 0xffff_ffff
ones Width.uhalf = 0xffff

-- `write<T>` for a `T` narrower than a word
unfoldable pub write : Width → MemoryMap → ℕ → ℕ → Outcome MemoryMap
write w m addr value = do
  let offset = addr % 4
  let key = addr - offset
  s ← shamt w offset
  let mask = bit_xor 0xffff_ffff (u32 (ones w <<< s))
  let word = bit_or (bit_and (m.map key) mask) (u32 (value <<< s))
  ok (record { map = λ a. if a == key then word else m.map a })
