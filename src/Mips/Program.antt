-- ===== src/Mips/Program.antt =====
-- Programs: src/mips/program.hpp and program.cpp, and `load_binary` of src/mips/loader.cpp.
-- `_source` is an unordered_map from addresses to instructions, here the function of its lookups.
use ji_tboy.Base.{
  ℕ, List, [], ◌∷◌, Option, none, some, Bool, true, false, ◌==◌, if◌then◌else◌, add32, Outcome, ok,
  err, bad_addr,
}
use ji_tboy.Mips.Isa.{Instruction}
use ji_tboy.Mips.Encoding.{decode_instruction}

pub record Program : Type 0 where
  pub source : ℕ → Option Instruction
  pub entry_point : ℕ

abbrev pub is_some : Option Instruction → Bool
is_some none = false
is_some (some _) = true

unfoldable pub valid_addr : Program → ℕ → Bool
valid_addr p addr = is_some (p.source addr)

abbrev found : Option Instruction → Outcome Instruction
found none = err bad_addr
found (some instr) = ok instr

-- `_source.at` throws std::out_of_range on a missing key.
unfoldable pub at : Program → ℕ → Outcome Instruction
at p addr = found (p.source addr)

-- The loop of `load_binary` over the words of the file, from `addr` on.
unfoldable pub load_words : ℕ → List ℕ → (ℕ → Option Instruction) → ℕ → Option Instruction
load_words addr [] source = source
load_words addr (word ∷ raw) source =
    load_words (add32 addr 4) raw
      (λ a. if a == addr then some (decode_instruction word) else source a)

-- `load_binary` on the big-endian words that were read from the file.
unfoldable pub load_binary : List ℕ → Program
unfolding load_words
load_binary raw = record { source = load_words 0 raw (λ _. none); entry_point = 0 }
