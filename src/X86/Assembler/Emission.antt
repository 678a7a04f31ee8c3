-- ===== src/X86/Assembler/Emission.antt =====
-- Calls of the assembler of src/x86/assembler.hpp append bytes: what each call appends.
use ji_tboy.Base.{ℕ, suc, zero, ◌+◌, ◌/◌, ◌^◌, ◌<◌, ◌≡◌, refl, ◌∙◌, arith, List, [], ◌∷◌, ◌++◌, u8}
use mathlib.Core.List.{append_assoc}
use native.Mathlib.Nat.{pow-suc}
use ji_tboy.VectorBuffer.{bytes}
use ji_tboy.VectorBuffer.{write as write_bytes}
use ji_tboy.X86.Assembler.{Assembler, count, write}
use ji_tboy.X86.Decode.{little_endian}

-- `a'` is `a` after one instruction of the bytes `code`.
pub record Emits (code : List ℕ) (a a' : Assembler) : Type 0 where
  pub appended : a'.buffer.buffer ≡ a.buffer.buffer ++ code
  pub counted : a'.instr_count ≡ a.instr_count + 1

pub write-buffer :
    (n value : ℕ) (a : Assembler)
    → (write n value a).buffer.buffer ≡ a.buffer.buffer ++ bytes n value
unfolding write write_bytes
write-buffer n value a = refl

-- An instruction of an opcode byte and an operand.
pub write_2-Emits :
    (n op value : ℕ) (a : Assembler)
    → Emits (u8 op ∷ bytes n value) a (write n value (write 1 op (count a)))
unfolding write write_bytes count
write_2-Emits n op value a = record {
  appended = append_assoc a.buffer.buffer (u8 op ∷ []) (bytes n value);
  counted = refl;
}

-- The same behind a prefix.
pub write_3-Emits :
    (n prefix op value : ℕ) (a : Assembler)
    → Emits
        (u8 prefix ∷ u8 op ∷ bytes n value)
        a
        (write n value (write 1 op (write 1 prefix (count a))))
unfolding write write_bytes count
write_3-Emits n prefix op value a = record {
  appended =
      append_assoc (a.buffer.buffer ++ (u8 prefix ∷ [])) (u8 op ∷ []) (bytes n value)
      ∙ append_assoc a.buffer.buffer (u8 prefix ∷ []) (u8 op ∷ bytes n value);
  counted = refl;
}

-- The bytes that the buffer takes for a value that fits them hold the value, low byte first.
pub little_endian-bytes : (n value : ℕ) → value < 0x100 ^ n → little_endian (bytes n value) ≡ value
unfolding little_endian
little_endian-bytes zero value h = omega arith
little_endian-bytes (suc n) value h =
    omega (
      arith,
      pow-suc 0x100 n,
      little_endian-bytes n (value / 0x100) (omega (arith, pow-suc 0x100 n)),
    )
