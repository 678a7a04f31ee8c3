-- ===== src/VectorBuffer/Laws.antt =====
-- The size of the buffer of src/vector_buffer.hpp, and what `copy` leaves in memory.
use ji_tboy.Base.{
  ℕ, suc, zero, ◌+◌, ◌-◌, ◌/◌, ◌<◌, ◌≤◌, ◌≡◌, refl, ◌∙◌, ap, arith, List, [], ◌∷◌, length,
  length-append, get_or, if◌then◌else◌, ◌==◌, ==-ne, leb, ltb, ◌&&◌, Bool-cases, true, false, inl,
  inr,
}
use ji_tboy.VectorBuffer.{VectorBuffer, bytes, write, size, copy, copy_bytes}

length-bytes : (n value : ℕ) → length (bytes n value) ≡ n
length-bytes zero value = refl
length-bytes (suc n) value = ap suc (length-bytes n (value / 0x100))

-- A write of `n` bytes makes the buffer larger by `n`.
pub size-write : (n : ℕ) (b : VectorBuffer) (value : ℕ) → size (write n b value) ≡ size b + n
unfolding size write
size-write n b value =
    length-append b.buffer (bytes n value) ∙ ap (λ k. length b.buffer + k) (length-bytes n value)

copy_bytes-below :
    (bs : List ℕ) (ptr : ℕ) (memory : ℕ → ℕ) (a : ℕ)
    → a < ptr
    → copy_bytes bs ptr memory a ≡ memory a
unfolding copy_bytes
copy_bytes-below [] ptr memory a h = refl
copy_bytes-below (b ∷ bs) ptr memory a h =
    copy_bytes-below bs (ptr + 1) _ a (omega arith)
    ∙ ap (λ c. if c then b else memory a) (==-ne a ptr (omega arith))

copy_bytes-above :
    (bs : List ℕ) (ptr : ℕ) (memory : ℕ → ℕ) (a : ℕ)
    → ptr + length bs ≤ a
    → copy_bytes bs ptr memory a ≡ memory a
unfolding copy_bytes
copy_bytes-above [] ptr memory a h = refl
copy_bytes-above (b ∷ bs) ptr memory a h =
    copy_bytes-above bs (ptr + 1) _ a (omega arith)
    ∙ ap (λ c. if c then b else memory a) (==-ne a ptr (omega arith))

pub copy_bytes-inside :
    (bs : List ℕ) (ptr : ℕ) (memory : ℕ → ℕ) (k : ℕ)
    → k < length bs
    → copy_bytes bs ptr memory (ptr + k) ≡ get_or bs k 0
unfolding copy_bytes
copy_bytes-inside [] ptr memory k h = absurd (omega arith)
copy_bytes-inside (b ∷ bs) ptr memory zero h =
    copy_bytes-below bs (ptr + 1) _ (ptr + 0) (omega arith)
    ∙ ap (λ c. if c then b else memory (ptr + 0)) {x = (ptr + 0) == ptr} {y = true} (ground arith)
copy_bytes-inside (b ∷ bs) ptr memory (suc k) h =
    ap (copy_bytes bs (ptr + 1) (λ a. if a == ptr then b else memory a)) {x = ptr + suc k}
      {y = ptr + 1 + k} (omega arith)
    ∙ copy_bytes-inside bs (ptr + 1) _ k (omega arith)

pub copy_bytes-outside :
    (bs : List ℕ) (ptr : ℕ) (memory : ℕ → ℕ) (a : ℕ)
    → (leb ptr a && ltb a (ptr + length bs)) ≡ false
    → copy_bytes bs ptr memory a ≡ memory a
copy_bytes-outside bs ptr memory a e = elim (Bool-cases (ltb a ptr)) [
  | inl h ↦ copy_bytes-below bs ptr memory a (ground (arith, h))
  | inr h ↦ copy_bytes-above bs ptr memory a (ground (arith, e, h))
]

-- `copy` puts the bytes of the buffer at `ptr`, in order, and leaves all other memory alone.
pub copy-memory :
    (b : VectorBuffer) (ptr : ℕ) (memory : ℕ → ℕ) (a : ℕ)
    → copy b ptr memory a
      ≡ (if leb ptr a && ltb a (ptr + size b) then get_or b.buffer (a - ptr) 0 else memory a)
unfolding copy size
copy-memory b ptr memory a = elim (Bool-cases (leb ptr a && ltb a (ptr + length b.buffer))) [
  | inl e ↦ rw e (
      ap (copy_bytes b.buffer ptr memory) {x = a} {y = ptr + (a - ptr)} (ground (arith, e))
      ∙ copy_bytes-inside b.buffer ptr memory (a - ptr) (ground (arith, e)))
  | inr e ↦ rw e (copy_bytes-outside b.buffer ptr memory a e)
]
