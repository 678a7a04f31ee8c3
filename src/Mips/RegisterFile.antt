-- ===== src/Mips/RegisterFile.antt =====
-- The guest's registers: src/mips/register_file.hpp and register_file.cpp.
-- `_regs` is an array of 32 general registers followed by HI and LO. An index past its end is
-- undefined behaviour in C++; the model reads 0 and writes nothing there, and the theorems keep
-- every index below 34.
pub mod Laws
use ji_tboy.Base.{
  ℕ, ◌+◌, ◌≡◌, List, [], ◌∷◌, get_or, set, replicate, length, ◌==◌, if◌then◌else◌, IsU32, All,
}
use ji_tboy.Mips.Isa.{Register, zero_reg}

pub record RegisterFile : Type 0 where
  pub regs : List ℕ

abbrev pub reg_count : ℕ
reg_count = 32

abbrev pub hi_reg : Register
hi_reg = 32

abbrev pub lo_reg : Register
lo_reg = 33

abbrev pub initial : RegisterFile
initial = record { regs = replicate 34 0 }

-- `operator[]`
unfoldable pub read : RegisterFile → Register → ℕ
read f reg = get_or f.regs reg 0

-- An assignment through the reference that `hi()` or `lo()` returns.
unfoldable pub assign : RegisterFile → Register → ℕ → RegisterFile
assign f reg value = record { regs = set f.regs reg value }

unfoldable pub hi : RegisterFile → ℕ
unfolding read
hi f = read f hi_reg

unfoldable pub lo : RegisterFile → ℕ
unfolding read
lo f = read f lo_reg

unfoldable pub write : RegisterFile → Register → ℕ → RegisterFile
write f reg value = if reg == zero_reg then f else record { regs = set f.regs reg value }
