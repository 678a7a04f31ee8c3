-- ===== src/VectorBuffer.antt =====
-- The byte buffer of the assembler: src/vector_buffer.hpp and vector_buffer.cpp. A value of more
-- than one byte is stored the way the host stores it, low byte first.
pub mod Laws
use ji_tboy.Base.{
  ℕ, suc, zero, ◌+◌, ◌/◌, ◌≡◌, List, [], ◌∷◌, ◌++◌, length, length-append, if◌then◌else◌, ◌==◌, u8,
  refl, ap, ◌∙◌,
}

pub record VectorBuffer : Type 0 where
  pub buffer : List ℕ

-- `size` bytes of `data`, low byte first.
abbrev pub bytes : ℕ → ℕ → List ℕ
bytes zero value = []
bytes (suc size) value = u8 value ∷ bytes size (value / 0x100)

-- `write<T>` for a `T` of `size` bytes
unfoldable pub write : ℕ → VectorBuffer → ℕ → VectorBuffer
write size b value = record { buffer = b.buffer ++ bytes size value }

unfoldable pub reset : VectorBuffer → VectorBuffer
reset b = record { buffer = [] }

unfoldable pub size : VectorBuffer → ℕ
size b = length b.buffer

-- `copy`: the memory from `ptr` on takes the bytes.
unfoldable pub copy_bytes : List ℕ → ℕ → (ℕ → ℕ) → ℕ → ℕ
copy_bytes [] ptr memory = memory
copy_bytes (b ∷ bs) ptr memory = copy_bytes bs (ptr + 1) (λ a. if a == ptr then b else memory a)

unfoldable pub copy : VectorBuffer → ℕ → (ℕ → ℕ) → ℕ → ℕ
unfolding copy_bytes
copy b ptr memory = copy_bytes b.buffer ptr memory
