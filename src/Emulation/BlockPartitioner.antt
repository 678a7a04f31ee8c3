-- ===== src/Emulation/BlockPartitioner.antt =====
-- The search for the end of a block: src/emulation/block_partitioner.cpp. `fuel` bounds the
-- number of instructions that the loop looks at.
pub mod Body
pub mod Blocks
pub mod Walk
use ji_tboy.Base.{
  ℕ, zero, suc, ◌+◌, ◌*◌, ◌<◌, ◌≤◌, ◌≡◌, Bool, true, false, Option, none, some, if◌then◌else◌, not,
  add32, Outcome, ok, err, ◌>>=◌, bad_addr, out_of_fuel,
}
use ji_tboy.Mips.Isa.{Instruction}
use ji_tboy.Mips.Program.{Program, valid_addr, at}
use ji_tboy.Mips.Classify.{is_branch_instr}
use ji_tboy.Emulation.SourceBlock.{SourceBlock}

-- The loop over `end_addr`
unfoldable pub scan : ℕ → Program → ℕ → Outcome ℕ
scan zero program end_addr = err out_of_fuel
scan (suc fuel) program end_addr =
    let rest = scan fuel program (add32 end_addr 4) in
    if valid_addr program end_addr
    then (at program end_addr >>= λ instr.
        if is_branch_instr instr then ok (add32 end_addr 4) else rest)
    else ok end_addr

unfoldable pub partition_block : ℕ → Program → ℕ → Outcome SourceBlock
unfolding scan
partition_block fuel program addr =
    let body = scan fuel program addr in
    if not (valid_addr program addr)
    then err bad_addr
    else (body >>= λ end_addr.
        let last = if valid_addr program end_addr then add32 end_addr 4 else end_addr in
        ok (record { program = program; start_addr = addr; end_addr = last }))
