-- ===== src/Emulation/BlockPartitioner/Body.antt =====
-- The loop of src/emulation/block_partitioner.cpp and the instructions that it passes.
use ji_tboy.Base.{
  ℕ, zero, suc, ◌+◌, ◌*◌, ◌<◌, ◌≤◌, ◌≡◌, refl, ◌∙◌, ap, arith, true, false, Bool-cases, none, some,
  Option-cases, ◌⊎◌, inl, inr, if◌then◌else◌, add32, ok,
}
use ji_tboy.Mips.Isa.{Instruction}
use ji_tboy.Mips.Program.{Program, valid_addr, at}
use ji_tboy.Mips.Classify.{is_branch_instr}
use ji_tboy.Emulation.BlockPartitioner.{scan}

-- The addresses of the program are below `limit`, two words before the end of the address space.
pub record IsBelow (limit : ℕ) (p : Program) : Type 0 where
  pub bound : (addr : ℕ) (instr : Instruction) → p.source addr ≡ some instr → addr < limit
  pub fits : limit + 8 ≤ 0x1_0000_0000

-- The `n` instructions from `a` on up to the first branch, or up to the end of the program.
pub data Body (p : Program) : ℕ → ℕ → Type 0 where
  stop : (a : ℕ) → p.source a ≡ none → Body p a 0
  branch :
      (a : ℕ) (instr : Instruction)
      → p.source a ≡ some instr
      → is_branch_instr instr ≡ true
      → Body p a 1
  next :
      (a n : ℕ) (instr : Instruction)
      → p.source a ≡ some instr
      → is_branch_instr instr ≡ false
      → Body p (a + 4) n
      → Body p a (suc n)

module _ (p : Program) where
  pub inside :
      {a n : ℕ}
      → Body p a n
      → (k : ℕ) → k < n
      → (instr : Instruction) × (p.source (a + 4 * k) ≡ some instr)
  inside (stop a e) k h = absurd (omega arith)
  inside (branch a instr e b) k h = (instr, ap p.source (omega arith) ∙ e)
  inside (next a n instr e b r) zero h = (instr, ap p.source (omega arith) ∙ e)
  inside (next a n instr e b r) (suc k) h =
      let (i, f) = inside r k (omega arith) in (i, ap p.source (omega arith) ∙ f)

  pub straight :
      {a n : ℕ}
      → Body p a n
      → (k : ℕ) (i : Instruction) → suc k < n
      → p.source (a + 4 * k) ≡ some i
      → is_branch_instr i ≡ false
  straight (stop a e) k i h f = absurd (omega arith)
  straight (branch a instr e b) k i h f = absurd (omega arith)
  straight (next a n instr e b r) zero i h f =
      let g = ap p.source {x = a + 4 * 0} {y = a} (omega arith) in cc
  straight (next a n instr e b r) (suc k) i h f =
      straight r k i (omega arith) (ap p.source (omega arith) ∙ f)

  -- The body ends at the end of the program or with a branch.
  unfoldable pub Complete : ℕ → ℕ → Type 0
  Complete a n =
      (p.source (a + 4 * n) ≡ none)
      ⊎ ((m : ℕ) × (n ≡ suc m)
          × (i : Instruction) × (p.source (a + 4 * m) ≡ some i)
          × (is_branch_instr i ≡ true))

  pub complete : {a n : ℕ} → Body p a n → Complete a n
  unfolding Complete
  complete (stop a e) = inl (ap p.source (omega arith) ∙ e)
  complete (branch a instr e b) = inr (0, refl, instr, ap p.source (omega arith) ∙ e, b)
  complete (next a n instr e b r) = elim (complete r) [
    | inl h ↦ inl (ap p.source (omega arith) ∙ h)
    | inr (m, g, i, f, c) ↦ inr (suc m, ap suc g, i, ap p.source (omega arith) ∙ f, c)
  ]

  scan_eq_stop : (fuel a : ℕ) → p.source a ≡ none → scan (suc fuel) p a ≡ ok a
  unfolding scan valid_addr
  scan_eq_stop fuel a e = rw e refl

  scan_eq_some :
      (fuel a : ℕ) (instr : Instruction)
      → p.source a ≡ some instr
      → scan (suc fuel) p a
        ≡ (if is_branch_instr instr then ok (add32 a 4) else scan fuel p (add32 a 4))
  unfolding scan valid_addr at
  scan_eq_some fuel a instr e = rw e refl

  module _ (limit : ℕ) (below : IsBelow limit p) where
    pub add32_valid : (a : ℕ) (instr : Instruction) → p.source a ≡ some instr → add32 a 4 ≡ a + 4
    add32_valid a instr e = let h = below.bound a instr e in let g = below.fits in omega arith

    scan_branch :
        (fuel a : ℕ) (instr : Instruction)
        → p.source a ≡ some instr
        → is_branch_instr instr ≡ true
        → scan (suc fuel) p a ≡ ok (a + 4 * 1)
    scan_branch fuel a instr e b =
        scan_eq_some fuel a instr e
        ∙ ap (λ c. if c then ok (add32 a 4) else scan fuel p (add32 a 4)) b
        ∙ ap ok (add32_valid a instr e ∙ omega arith)

    scan_next :
        (fuel a : ℕ) (instr : Instruction)
        → p.source a ≡ some instr
        → is_branch_instr instr ≡ false
        → scan (suc fuel) p a ≡ scan fuel p (a + 4)
    scan_next fuel a instr e b =
        scan_eq_some fuel a instr e
        ∙ ap (λ c. if c then ok (add32 a 4) else scan fuel p (add32 a 4)) b
        ∙ ap (scan fuel p) (add32_valid a instr e)

    -- The loop returns within one look per word below `limit`, and it returns the end of the body.
    pub scan-Body :
        (fuel a : ℕ)
        → limit ≤ a + 4 * fuel
        → (n : ℕ) × Body p a n × (scan (suc fuel) p a ≡ ok (a + 4 * n))
    scan-Body zero a h = elim (Option-cases (p.source a)) [
      | inl e ↦ (0, stop a e, scan_eq_stop zero a e ∙ ap ok (omega arith))
      | inr (instr, e) ↦ absurd (omega (arith, below.bound a instr e))
    ]
    scan-Body (suc fuel) a h = elim (Option-cases (p.source a)) [
      | inl e ↦ (0, stop a e, scan_eq_stop (suc fuel) a e ∙ ap ok (omega arith))
      | inr (instr, e) ↦ elim (Bool-cases (is_branch_instr instr)) [
        | inl b ↦ (1, branch a instr e b, scan_branch (suc fuel) a instr e b)
        | inr b ↦
            let (n, r, f) = scan-Body fuel (a + 4) (omega arith) in
            (
              suc n,
              next a n instr e b r,
              scan_next (suc fuel) a instr e b ∙ f ∙ ap ok (omega arith),
            )
      ]
    ]
