-- ===== src/X86/Linker/Patched.antt =====
-- What `terminate_local` of src/x86/linker.cpp leaves at the sites that it patches.
use ji_tboy.Base.{
  ℕ, ◌+◌, ◌-◌, ◌*◌, ◌≤◌, ◌≡◌, List, [], ◌∷◌, some, ◌⊎◌, u32, Holds-result, Holds-result,
}
use ji_tboy.X86.Linker.{Linker, Label, find}

-- The 32-bit displacement in front of `end_ptr`, and where the processor goes from there.
pub displacement_at : (ℕ → ℕ) → ℕ → ℕ
displacement_at memory end_ptr =
    memory (end_ptr - 4)
    + 0x100 * memory (end_ptr - 3)
    + 0x1_0000 * memory (end_ptr - 2)
    + 0x100_0000 * memory (end_ptr - 1)

pub lands : (ℕ → ℕ) → ℕ → ℕ
unfolding displacement_at
lands memory end_ptr = u32 (end_ptr + displacement_at memory end_ptr)

-- Two ends of sites that share no byte.
abbrev pub Disjoint : ℕ → ℕ → Type 0
Disjoint e f = (e + 4 ≤ f) ⊎ (f + 4 ≤ e)

module _ (block_addr : ℕ) (globals : List (Label × ℕ)) where
  -- The sites lie behind the address 4, and no two share a byte.
  abbrev pub Away : ℕ → List (ℕ × Label) → Type 0
  Away e [] = Unit
  Away e (s ∷ sites) = Disjoint (block_addr + s.0) e × Away e sites

  abbrev pub Apart : List (ℕ × Label) → Type 0
  Apart [] = Unit
  Apart (s ∷ sites) = (4 ≤ block_addr + s.0) × Away (block_addr + s.0) sites × Apart sites

  -- Each site leads to the address of its label.
  abbrev pub Lands : (ℕ → ℕ) → List (ℕ × Label) → Type 0
  Lands memory [] = Unit
  Lands memory (s ∷ sites) =
      ((target : ℕ) × (find globals s.1 ≡ some target)
        × (lands memory (block_addr + s.0) ≡ u32 target))
      × Lands memory sites

  -- Every site's label has an address.
  abbrev pub Known : List (ℕ × Label) → Type 0
  Known [] = Unit
  Known (s ∷ sites) = ((target : ℕ) × (find globals s.1 ≡ some target)) × Known sites
