-- ===== src/Emulation/BlockPartitioner/Blocks.antt =====
-- What the blocks of src/emulation/block_partitioner.cpp are.
use ji_tboy.Base.{
  ℕ, suc, ◌+◌, ◌*◌, ◌<◌, ◌≤◌, ◌≡◌, refl, ◌∙◌, ap, arith, ltb, true, false, Bool-cases, none, some,
  Option-cases, inl, inr, if◌then◌else◌, add32, ok,
}
use ji_tboy.Mips.Isa.{Instruction}
use ji_tboy.Mips.Program.{Program, valid_addr}
use ji_tboy.Mips.Classify.{is_branch_instr}
use ji_tboy.Emulation.SourceBlock.{SourceBlock}
use ji_tboy.Emulation.BlockPartitioner.{scan, partition_block}
use ji_tboy.Emulation.BlockPartitioner.Body.{
  IsBelow, Body, inside, straight, complete, Complete, add32_valid, scan-Body,
}

-- A block that starts at `addr`: `count` instructions of the program, of which only the last two can
-- be a branch, and if the program goes on behind it, the last but one is a branch.
pub record IsBlock (p : Program) (addr : ℕ) (b : SourceBlock) : Type 0 where
  pub count : ℕ
  pub program : b.program ≡ p
  pub starts : b.start_addr ≡ addr
  pub ends : b.end_addr ≡ addr + 4 * count
  pub inside : (k : ℕ) → k < count → (i : Instruction) × (p.source (addr + 4 * k) ≡ some i)
  pub straight :
      (k : ℕ) (i : Instruction)
      → k + 2 < count
      → p.source (addr + 4 * k) ≡ some i
      → is_branch_instr i ≡ false
  pub complete :
      (next : Instruction)
      → p.source (addr + 4 * count) ≡ some next
      → (k : ℕ) × (count ≡ k + 2)
        × (i : Instruction) × (p.source (addr + 4 * k) ≡ some i)
        × (is_branch_instr i ≡ true)

module _ (p : Program) (limit : ℕ) (below : IsBelow limit p) where
  -- A block without a delay slot behind its body.
  short-IsBlock :
      (addr n : ℕ)
      → Body p addr n
      → p.source (addr + 4 * n) ≡ none
      → IsBlock p addr (record { program = p; start_addr = addr; end_addr = addr + 4 * n })
  short-IsBlock addr n r e = record {
    count = n;
    program = refl;
    starts = refl;
    ends = refl;
    inside = inside p r;
    straight = λ k i h f. straight p r k i (omega arith) f;
    complete = λ i f. cc;
  }

  long-inside :
      (addr n : ℕ) (slot : Instruction)
      → Body p addr n
      → p.source (addr + 4 * n) ≡ some slot
      → (k : ℕ) → k < suc n
      → (i : Instruction) × (p.source (addr + 4 * k) ≡ some i)
  long-inside addr n slot r e k h = elim (Bool-cases (ltb k n)) [
    | inl g ↦ inside p r k (ground (arith, g))
    | inr g ↦ (slot, ap p.source {x = addr + 4 * k} {y = addr + 4 * n} (ground (arith, g, h)) ∙ e)
  ]

  long_complete :
      (addr n : ℕ) (slot : Instruction)
      → Body p addr n
      → p.source (addr + 4 * n) ≡ some slot
      → (k : ℕ) × (suc n ≡ k + 2)
        × (i : Instruction) × (p.source (addr + 4 * k) ≡ some i)
        × (is_branch_instr i ≡ true)
  unfolding Complete
  long_complete addr n slot r e = elim (complete p r) [
    | inl h ↦ cc
    | inr (m, g, i, f, c) ↦ (m, omega arith, i, f, c)
  ]

  long-IsBlock :
      (addr n : ℕ) (slot : Instruction)
      → Body p addr n
      → p.source (addr + 4 * n) ≡ some slot
      → IsBlock p addr
          (record { program = p; start_addr = addr; end_addr = add32 (addr + 4 * n) 4 })
  long-IsBlock addr n slot r e = record {
    count = suc n;
    program = refl;
    starts = refl;
    ends = add32_valid p limit below (addr + 4 * n) slot e ∙ omega arith;
    inside = long-inside addr n slot r e;
    straight = λ k i h f. straight p r k i (omega arith) f;
    complete = λ i f. long_complete addr n slot r e;
  }

  -- The block for a scan that ended at `end_addr`.
  block : ℕ → ℕ → SourceBlock
  block addr end_addr = record {
    program = p;
    start_addr = addr;
    end_addr = if valid_addr p end_addr then add32 end_addr 4 else end_addr;
  }

  block-IsBlock : (addr n : ℕ) → Body p addr n → IsBlock p addr (block addr (addr + 4 * n))
  unfolding block valid_addr
  block-IsBlock addr n r = elim (Option-cases (p.source (addr + 4 * n))) [
    | inl e ↦ rw e (short-IsBlock addr n r e)
    | inr (slot, e) ↦ rw e (long-IsBlock addr n slot r e)
  ]

  partition_block_eq :
      (fuel addr end_addr : ℕ)
      → valid_addr p addr ≡ true
      → scan fuel p addr ≡ ok end_addr
      → partition_block fuel p addr ≡ ok (block addr end_addr)
  unfolding partition_block block
  partition_block_eq fuel addr end_addr v e = rw (v, e) refl

  -- If the program ends below a limit that leaves two words to the address space, then from an
  -- address of the program, with a fuel of one look per word up to the limit, the partitioner
  -- returns a block: consecutive instructions of the program, all but the last two of which are no
  -- branches, and of which the last but one is a branch if the program goes on behind the block.
  pub partition_block-IsBlock :
      (fuel addr : ℕ)
      → limit ≤ addr + 4 * fuel
      → valid_addr p addr ≡ true
      → (b : SourceBlock) × (partition_block (suc fuel) p addr ≡ ok b) × IsBlock p addr b
  partition_block-IsBlock fuel addr h v =
      let (n, r, e) = scan-Body p limit below fuel addr h in
      (
        block addr (addr + 4 * n),
        partition_block_eq (suc fuel) addr (addr + 4 * n) v e,
        block-IsBlock addr n r,
      )
