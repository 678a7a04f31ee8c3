-- ===== src/Emulation/BlockMap/Relinked.antt =====
-- What the loops of src/emulation/runtime.cpp and hybrid_runtime.cpp that link all blocks make of a map.
use ji_tboy.Base.{
  ℕ, ◌≡◌, refl, sym, ◌∙◌, ap, arith, Bool-cases, ◌⊎◌, inl, inr, List, All, some, ◌==◌, ==-self,
}
use ji_tboy.Emulation.CompiledBlock.{CompiledBlock}
use ji_tboy.Emulation.JumpResolver.{code_of}
use ji_tboy.Emulation.BlockMap.{Blocks, insert}
use ji_tboy.Emulation.BlockMap.Linked.{AreLinked, Keeps, IsOpen, IsCondOpen}

-- How `relink` leaves the map: the same blocks at the same addresses of host memory
unfoldable pub Agrees : Blocks → Blocks → Type 0
Agrees blocks blocks' = (a : ℕ) → code_of (blocks' a) ≡ code_of (blocks a)

pub insert-Agrees :
    (addr : ℕ) (b b' : CompiledBlock) (blocks : Blocks)
    → blocks addr ≡ some b
    → b'.code ≡ b.code
    → Agrees blocks (insert addr b' blocks)
unfolding Agrees insert
insert-Agrees addr b b' blocks e c a = elim (Bool-cases (a == addr)) [
  | inl t ↦ rw t (
      ap some c
      ∙ sym (ap (λ x. code_of (blocks x)) {x = a} {y = addr} (ground (arith, t)) ∙ ap code_of e))
  | inr t ↦ rw t refl
]

pub Agrees-Keeps : (blocks blocks' : Blocks) → Agrees blocks blocks' → Keeps blocks blocks'
unfolding Agrees Keeps
Agrees-Keeps blocks blocks' k a dst h = k a ∙ h

-- The links of the block at this address that stay open have no block to lead to.
pub IsSettled : Blocks → ℕ → Type 0
IsSettled blocks a =
    (b : CompiledBlock)
    → blocks a ≡ some b
    → All (IsOpen blocks) b.unresolved_jumps × All (IsCondOpen blocks) b.unresolved_cond_jumps

pub insert-at :
    (addr : ℕ) (b : CompiledBlock) (blocks : Blocks) → insert addr b blocks addr ≡ some b
unfolding insert
insert-at addr b blocks = rw (==-self addr) refl

pub insert-cases :
    (addr : ℕ) (b : CompiledBlock) (blocks : Blocks) (a : ℕ) (c : CompiledBlock)
    → insert addr b blocks a ≡ some c
    → (b ≡ c) ⊎ (blocks a ≡ some c)
unfolding insert
insert-cases addr b blocks a c e = elim (Bool-cases (a == addr)) [
  | inl t ↦ let h : some b ≡ some c = rw t at e in inl cc
  | inr t ↦ inr (rw t at e)
]

-- What linking the blocks at these addresses makes of a map
pub record IsRelinked (addrs : List ℕ) (blocks blocks' : Blocks) : Type 0 where
  pub agrees : Agrees blocks blocks'
  pub linked : AreLinked blocks'
  pub settled : All (IsSettled blocks') addrs
  pub stays_settled : (a : ℕ) → IsSettled blocks a → IsSettled blocks' a
