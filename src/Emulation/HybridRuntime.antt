-- ===== src/Emulation/HybridRuntime.antt =====
-- The emulator that interprets a block until it has been asked for often enough, and has other threads
-- compile it: src/emulation/hybrid_runtime.hpp, hybrid_runtime.cpp and hybrid_runtime_config.hpp, with
-- the queues of src/threading/worker_pool.hpp and result_queue.hpp that it uses. What the processor does
-- with a block's code and the order in which the map of blocks is walked are parameters.
pub mod Requests
pub mod Rounds
pub mod Threads
use ji_tboy.Base.{
  ℕ, zero, suc, ◌+◌, ◌-◌, ◌%◌, ◌^◌, ◌==◌, ltb, Bool, true, false, not, ◌||◌, if◌then◌else◌, List,
  [], ◌∷◌, ◌++◌, length, Option, none, some, Fault, Outcome, ok, err, ◌>>=◌, out_of_fuel,
}
use ji_tboy.Mips.Program.{Program, valid_addr, at}
use ji_tboy.Mips.Classify.{is_branch_instr}
use ji_tboy.Emulation.State.{EmulatorState, valid_pc}
use ji_tboy.Emulation.InterpreterCore.{execute_current}
use ji_tboy.Emulation.BlockPartitioner.{partition_block}
use ji_tboy.Emulation.CompiledBlock.{CompiledBlock, UnconditionalJump, ConditionalJump}
use ji_tboy.Emulation.JumpResolver.{is_null}
use ji_tboy.Emulation.Compiler.{Compiler, Host}
use ji_tboy.Emulation.Compiler.Block.{compile_block}
use ji_tboy.Emulation.BlockMap.{Blocks, insert, relink}

pub record HybridRuntimeConfig : Type 0 where
  pub compilation_threshold : ℕ
  pub direct_linking : Bool
  pub speculative_compilation : Bool

-- `Result`
pub record Result : Type 0 where
  pub addr : ℕ
  pub block : CompiledBlock

-- `jobs` has the addresses that the pool of workers has still to compile, `exceptions` what its jobs
-- threw, and `announced` the results that a worker has counted but not yet put into `results`. `memory`
-- is the host memory that holds the code.
pub record HybridRuntime : Type 0 where
  pub config : HybridRuntimeConfig
  pub state : EmulatorState
  pub blocks : Blocks
  pub block_requests : ℕ → ℕ
  pub interpreted_instructions : ℕ
  pub jobs : List ℕ
  pub exceptions : List Fault
  pub announced : List Result
  pub results : List Result
  pub results_expected : ℕ
  pub memory : ℕ → ℕ

-- The constructor, for the state of the guest and what the host's memory holds
abbrev pub initial : HybridRuntimeConfig → EmulatorState → (ℕ → ℕ) → HybridRuntime
initial config state memory = record {
  config = config;
  state = state;
  blocks = λ addr. none;
  block_requests = λ addr. 0;
  interpreted_instructions = 0;
  jobs = [];
  exceptions = [];
  announced = [];
  results = [];
  results_expected = 0;
  memory = memory;
}

unfoldable pub load_source : Program → HybridRuntime → HybridRuntime
load_source program h = record h { state = record h.state { program = program } }

-- `compile_block`: a job for the workers
unfoldable pub schedule : ℕ → HybridRuntime → HybridRuntime
schedule addr h = record h { jobs = h.jobs ++ (addr ∷ []) }

-- `_block_requests[addr] = requests`
unfoldable pub set_requests : ℕ → ℕ → HybridRuntime → HybridRuntime
set_requests addr requests h = record h {
  block_requests = λ a. if a == addr then requests else h.block_requests a;
}

-- The job of `compile_block`, on a worker's compiler; `fuel` is that of the partitioner.
unfoldable pub compile_job :
    Host → ℕ → Compiler → ℕ → HybridRuntime → Outcome (Compiler × CompiledBlock × (ℕ → ℕ))
unfolding partition_block compile_block
compile_job host fuel c addr h = do
  input ← partition_block fuel h.state.program addr
  compile_block host input
      (record {
        o_level = 0;
        direct_linking = h.config.direct_linking || h.config.speculative_compilation;
      })
      c h.memory

-- `try_compile` of `speculatively_compile`
unfoldable pub try_compile : ℕ → HybridRuntime → HybridRuntime
unfolding valid_addr schedule set_requests
try_compile addr h =
    if not (valid_addr h.state.program addr)
    then h
    else (if ltb (h.block_requests addr) h.config.compilation_threshold
        then schedule addr (set_requests addr h.config.compilation_threshold h)
        else h)

-- The loops over the open jumps of a block
unfoldable pub try_targets : List UnconditionalJump → HybridRuntime → HybridRuntime
unfolding try_compile
try_targets [] h = h
try_targets (j ∷ js) h = try_targets js (if is_null j.dst_x86 then try_compile j.dst_mips h else h)

unfoldable pub try_cond_targets : List ConditionalJump → HybridRuntime → HybridRuntime
unfolding try_compile
try_cond_targets [] h = h
try_cond_targets (j ∷ js) h =
    let h' = if is_null j.dst_false_x86 then try_compile j.dst_false_mips h else h in
    try_cond_targets js (if is_null j.dst_true_x86 then try_compile j.dst_true_mips h' else h')

unfoldable pub try_block : Option CompiledBlock → HybridRuntime → HybridRuntime
unfolding try_targets try_cond_targets
try_block none h = h
try_block (some block) h =
    try_cond_targets block.unresolved_cond_jumps (try_targets block.unresolved_jumps h)

-- `speculatively_compile`, for the addresses in the order in which the map is walked
unfoldable pub speculatively_compile : List ℕ → HybridRuntime → HybridRuntime
unfolding try_block
speculatively_compile [] h = h
speculatively_compile (addr ∷ addrs) h = speculatively_compile addrs (try_block (h.blocks addr) h)

-- The loop over `try_dequeue`, until the queue is empty
unfoldable pub dequeue : List Result → HybridRuntime → HybridRuntime
unfolding insert
dequeue [] h = record h { results = [] }
dequeue (result ∷ rest) h = dequeue rest (record h {
  blocks = insert result.addr result.block h.blocks;
  results = rest;
  results_expected = h.results_expected - 1;
})

-- What `operator()` of an entry that is there does to its counter
abbrev pub counted : CompiledBlock → CompiledBlock
counted block = record block { execution_count = (block.execution_count + 1) % 2 ^ 64 }

-- `handle_exceptions(std::rethrow_exception)`
abbrev pub rethrow : List Fault → Outcome (List Fault)
rethrow [] = ok []
rethrow (e ∷ rest) = err e

abbrev pub is_empty : List Result → Bool
is_empty [] = true
is_empty (result ∷ rest) = false

-- `try_get_block` behind the lookup of a block that is not there: the request is counted, in a `size_t`.
unfoldable pub request : ℕ → HybridRuntime → HybridRuntime
unfolding schedule set_requests
request addr h =
    let requests = (h.block_requests addr + 1) % 2 ^ 64 in
    let h' = set_requests addr requests h in
    if requests == h.config.compilation_threshold then schedule addr h' else h'

unfoldable pub get_or_request :
    ℕ → Option CompiledBlock → HybridRuntime → Option CompiledBlock × HybridRuntime
unfolding request
get_or_request addr none h = (none, request addr h)
get_or_request addr (some block) h = (some block, h)

-- One instruction in the interpreter, and whether it is a jump
unfoldable pub interpret : ℕ → HybridRuntime → Outcome (Bool × HybridRuntime)
unfolding at is_branch_instr execute_current
interpret depth h = do
  instr ← at h.state.program h.state.pc
  s ← execute_current depth h.state
  ok (
    is_branch_instr instr,
    record h { state = s; interpreted_instructions = (h.interpreted_instructions + 1) % 2 ^ 64 },
  )

module _ (walk : Blocks → List ℕ)
    (call : CompiledBlock → (ℕ → ℕ) → EmulatorState → Outcome (ℕ × EmulatorState)) where
  -- `relink_blocks`, under direct linking
  unfoldable pub relink_blocks : HybridRuntime → Outcome HybridRuntime
  unfolding relink
  relink_blocks h =
      if h.config.direct_linking
      then (do
        (blocks, memory) ← relink (walk h.blocks) h.blocks h.memory
        ok (record h { blocks = blocks; memory = memory }))
      else ok h

  -- The end of `consume_results`, when something was consumed
  unfoldable pub use_results : HybridRuntime → Outcome HybridRuntime
  unfolding relink_blocks speculatively_compile
  use_results h = do
    h' ← relink_blocks h
    ok (if h'.config.speculative_compilation then speculatively_compile (walk h'.blocks) h' else h')

  unfoldable pub consume_results : HybridRuntime → Outcome HybridRuntime
  unfolding dequeue use_results
  consume_results h =
      if h.results_expected == 0
      then ok h
      else (rethrow h.exceptions >>= λ exceptions.
          let h' = dequeue h.results h in if is_empty h.results then ok h' else use_results h')

  unfoldable pub try_get_block : ℕ → HybridRuntime → Outcome (Option CompiledBlock × HybridRuntime)
  unfolding consume_results get_or_request
  try_get_block addr h = do h' ← consume_results h; ok (get_or_request addr (h'.blocks addr) h')

  -- The body of the loop when the block at `addr` was asked for
  unfoldable pub execute_found :
      ℕ → ℕ → Option CompiledBlock → HybridRuntime → Outcome (Bool × HybridRuntime)
  unfolding interpret insert
  execute_found depth addr none h = interpret depth h
  execute_found depth addr (some block) h = do
    (pc, s) ← call block h.memory h.state
    ok (
      true,
      record h { blocks = insert addr (counted block) h.blocks; state = record s { pc = pc } },
    )

  -- The body of the loop, and `jumped` behind it
  unfoldable pub round : ℕ → Bool → HybridRuntime → Outcome (Bool × HybridRuntime)
  unfolding try_get_block execute_found interpret
  round depth jumped h =
      if jumped
      then (try_get_block h.state.pc h >>= λ (block, h'). execute_found depth h.state.pc block h')
      else interpret depth h

  -- The loop of `execute(addr)`; `turns` has what the other threads do before each of its rounds.
  unfoldable pub run :
      List (HybridRuntime → HybridRuntime) → ℕ → Bool → HybridRuntime → Outcome HybridRuntime
  unfolding round valid_pc
  run [] depth jumped h = err out_of_fuel
  run (turn ∷ turns) depth jumped h =
      let rest = round depth jumped (turn h) >>= λ (jumped', h'). run turns depth jumped' h' in
      if valid_pc h.state then rest else ok h

  -- `execute(addr)`
  unfoldable pub execute :
      List (HybridRuntime → HybridRuntime) → ℕ → ℕ → HybridRuntime → Outcome HybridRuntime
  unfolding run
  execute turns depth addr h =
      run turns depth true (record h { state = record h.state { pc = addr } })
