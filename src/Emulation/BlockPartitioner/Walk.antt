-- ===== src/Emulation/BlockPartitioner/Walk.antt =====
-- The walk over a block's addresses with `size` and `at` of src/emulation/source_block.cpp.
use ji_tboy.Base.{
  ℕ, ◌+◌, ◌-◌, ◌*◌, ◌<◌, ◌≡◌, refl, arith, ltb, leb, Bool, true, false, Bool-cases, inl, inr, err,
  bad_addr, not, ◌&&◌, if◌then◌else◌,
}
use ji_tboy.Mips.Program.{Program}
use ji_tboy.Mips.Program.{at as program_at}
use ji_tboy.Emulation.SourceBlock.{SourceBlock, size, valid_addr, at}
use ji_tboy.Emulation.BlockPartitioner.Body.{IsBelow}
use ji_tboy.Emulation.BlockPartitioner.Blocks.{IsBlock}

swap {ℓ} : {A : Type ℓ} (b : Bool) (x y : A) → (if not b then x else y) ≡ (if b then y else x)
swap true x y = refl
swap false x y = refl

module _ (p : Program) (limit addr : ℕ) (b : SourceBlock) (below : IsBelow limit p)
    (h : IsBlock p addr b) where
  count-lt : 4 * h.count < 0x1_0000_0000
  count-lt = elim (Bool-cases (ltb 0 h.count)) [
    | inl e ↦
        let (i, f) = h.inside (h.count - 1) (ground arith) in
        let g = below.bound (addr + 4 * (h.count - 1)) i f in let k = below.fits in ground arith
    | inr e ↦ ground arith
  ]

  -- `size` is the number of instructions of a block.
  pub IsBlock-size : size b ≡ h.count
  unfolding size
  IsBlock-size = let l = count-lt in rw (h.starts, h.ends) (omega arith)

  range : (a : ℕ) → valid_addr b a ≡ (leb addr a && ltb a (addr + 4 * h.count))
  unfolding valid_addr
  range a = rw (h.starts, h.ends) refl

  -- For a block of a program that ends below its limit, `at` gives what the program has at an
  -- address inside of the block's `size` words, and throws at every other address.
  pub IsBlock-at :
      (a : ℕ)
      → at b a ≡ (if leb addr a && ltb a (addr + 4 * size b) then program_at p a else err bad_addr)
  unfolding at
  IsBlock-at a =
      rw (range a, IsBlock-size, h.program)
        (swap (leb addr a && ltb a (addr + 4 * h.count)) (err bad_addr) (program_at p a))
