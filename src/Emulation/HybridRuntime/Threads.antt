-- ===== src/Emulation/HybridRuntime/Threads.antt =====
-- The loop of src/emulation/hybrid_runtime.cpp and the threads that compile its blocks, in whatever
-- order they take their steps.
use ji_tboy.Base.{
  ℕ, suc, ◌+◌, ◌^◌, ◌≤◌, ◌<◌, ◌≡◌, ◌⊎◌, refl, ap, arith, Bool, inl, inr, List, [], ◌∷◌, ◌++◌, hit,
  occurrences, occurrences-append, Fault, Outcome, ok, err, Holds-result,
}
use ji_tboy.Emulation.State.{EmulatorState}
use ji_tboy.Emulation.CompiledBlock.{CompiledBlock}
use ji_tboy.Emulation.Compiler.{Compiler, Host}
use ji_tboy.Emulation.BlockMap.{Blocks}
use ji_tboy.Emulation.HybridRuntime.{HybridRuntime, Result, round, compile_job}
use ji_tboy.Emulation.HybridRuntime.Requests.{addrs, pending, IsOnce, Same, Same-IsOnce}
use ji_tboy.Emulation.HybridRuntime.{HybridRuntimeConfig, initial}
use ji_tboy.Emulation.HybridRuntime.Rounds.{addrs-append, After, round-After}

-- The loop is at its `n`-th round at most; between rounds, a worker counts the result of a job or
-- notes what the job threw, or puts a result that was counted into the queue.
module _ (host : Host) (walk : Blocks → List ℕ)
    (call : CompiledBlock → (ℕ → ℕ) → EmulatorState → Outcome (ℕ × EmulatorState))
    (start : HybridRuntime) where
  pub data Reached : ℕ → HybridRuntime → Type 0 where
    starts : Reached 0 start
    rounds :
        {n : ℕ} {h h' : HybridRuntime} (depth : ℕ) (jumped jumped' : Bool)
        → Reached n h
        → round walk call depth jumped h ≡ ok (jumped', h')
        → Reached (suc n) h'
    announces :
        {n : ℕ} {h : HybridRuntime} (before after : List ℕ) (addr fuel : ℕ) (c c' : Compiler)
        (block : CompiledBlock) (memory : ℕ → ℕ)
        → Reached n h
        → h.jobs ≡ before ++ (addr ∷ after)
        → compile_job host fuel c addr h ≡ ok (c', block, memory)
        → Reached n (record h {
          jobs = before ++ after;
          announced = record { addr = addr; block = block } ∷ h.announced;
          results_expected = h.results_expected + 1;
          memory = memory;
        })
    throws :
        {n : ℕ} {h : HybridRuntime} (before after : List ℕ) (addr fuel : ℕ) (c : Compiler)
        (e : Fault)
        → Reached n h
        → h.jobs ≡ before ++ (addr ∷ after)
        → compile_job host fuel c addr h ≡ err e
        → Reached n (record h { jobs = before ++ after; exceptions = h.exceptions ++ (e ∷ []) })
    delivers :
        {n : ℕ} {h : HybridRuntime} (before after : List Result) (result : Result)
        → Reached n h
        → h.announced ≡ before ++ (result ∷ after)
        → Reached n (record h { announced = before ++ after; results = h.results ++ (result ∷ []) })

announced-Same :
    (h : HybridRuntime) (before after : List ℕ) (addr : ℕ) (block : CompiledBlock) (expected : ℕ)
    (memory : ℕ → ℕ)
    → h.jobs ≡ before ++ (addr ∷ after)
    → Same h (record h {
      jobs = before ++ after;
      announced = record { addr = addr; block = block } ∷ h.announced;
      results_expected = expected;
      memory = memory;
    })
unfolding pending occurrences
announced-Same h before after addr block expected memory e = record {
  same_pending = λ a.
      let was = ap (occurrences a) e in
      let l = occurrences-append a before (addr ∷ after) in
      let m = occurrences-append a before after in omega (arith, was, l, m);
  same_requests = λ a. refl;
  same_threshold = refl;
}

delivered-Same :
    (h : HybridRuntime) (before after : List Result) (result : Result)
    → h.announced ≡ before ++ (result ∷ after)
    → Same h (record h { announced = before ++ after; results = h.results ++ (result ∷ []) })
unfolding pending occurrences
delivered-Same h before after result e = record {
  same_pending = λ a.
      let was = ap (λ l. occurrences a (addrs l)) e in
      let l = addrs-append a before (result ∷ after) in
      let m = addrs-append a before after in
      let r = addrs-append a h.results (result ∷ []) in omega (arith, was, l, m, r);
  same_requests = λ a. refl;
  same_threshold = refl;
}

-- A job that throws is gone.
thrown-IsOnce :
    {t : ℕ} (n : ℕ) (h : HybridRuntime) (before after : List ℕ) (addr : ℕ) (exceptions : List Fault)
    → h.jobs ≡ before ++ (addr ∷ after)
    → IsOnce t n h
    → IsOnce t n (record h { jobs = before ++ after; exceptions = exceptions })
unfolding pending occurrences
thrown-IsOnce n h before after addr exceptions e i =
    let less : (a : ℕ)
        → pending a h ≡ hit a addr + pending a (record h { jobs = before ++ after }) =
      λ a.
        let was = ap (occurrences a) e in
        let l = occurrences-append a before (addr ∷ after) in
        let m = occurrences-append a before after in omega (arith, was, l, m) in
    record {
      once = λ a. omega (arith, less a, i.once a);
      asked = λ a. elim (i.asked a) [ inl z ↦ inl (omega (arith, less a, z)) | inr u ↦ inr u ];
      bounded = i.bounded;
      fixed = i.fixed;
    }

initial-IsOnce :
    (config : HybridRuntimeConfig) (s : EmulatorState) (memory : ℕ → ℕ)
    → IsOnce config.compilation_threshold 0 (initial config s memory)
unfolding pending occurrences
initial-IsOnce config s memory = record {
  once = λ a. omega arith;
  asked = λ a. inl (omega arith);
  bounded = λ a. omega arith;
  fixed = refl;
}

module _ (host : Host) (walk : Blocks → List ℕ)
    (call : CompiledBlock → (ℕ → ℕ) → EmulatorState → Outcome (ℕ × EmulatorState))
    (config : HybridRuntimeConfig) (s : EmulatorState) (memory : ℕ → ℕ) where
  Reached-IsOnce :
      (n : ℕ) (h : HybridRuntime)
      → Reached host walk call (initial config s memory) n h
      → n + config.compilation_threshold < 2 ^ 64
      → IsOnce config.compilation_threshold n h
  Reached-IsOnce n h starts small = initial-IsOnce config s memory
  Reached-IsOnce n h' (rounds {n = m} {h = h} depth jumped jumped' r e) small =
      let i = Reached-IsOnce m h r (omega (arith, small)) in
      Holds-result (After walk call config.compilation_threshold m) (round walk call depth jumped h)
        (jumped', h')
        (round-After walk call config.compilation_threshold m depth jumped h (omega (arith, small))
          i)
        e
  Reached-IsOnce n h' (announces {h = h} before after addr fuel c c' block m r e f) small =
      Same-IsOnce n h h' (announced-Same h before after addr block (h.results_expected + 1) m e)
        (Reached-IsOnce n h r small)
  Reached-IsOnce n h' (throws {h = h} before after addr fuel c f r e g) small =
      thrown-IsOnce n h before after addr (h.exceptions ++ (f ∷ [])) e (Reached-IsOnce n h r small)
  Reached-IsOnce n h' (delivers {h = h} before after result r e) small =
      Same-IsOnce n h h' (delivered-Same h before after result e) (Reached-IsOnce n h r small)

-- From the constructor on, in whatever order the rounds of the loop and the steps of the compiling
-- threads take place, there is at any time at most one block for each address among the jobs, the
-- results on their way and the map of blocks, and there is one only if the requests for the address
-- have reached the threshold, as long as the number of rounds and the threshold stay below 2^64
-- together.
pub Reached-pending :
    (host : Host) (walk : Blocks → List ℕ)
    (call : CompiledBlock → (ℕ → ℕ) → EmulatorState → Outcome (ℕ × EmulatorState))
    (config : HybridRuntimeConfig) (s : EmulatorState) (memory : ℕ → ℕ) (n : ℕ) (h : HybridRuntime)
    → Reached host walk call (initial config s memory) n h
    → n + config.compilation_threshold < 2 ^ 64
    → (a : ℕ)
    → (pending a h ≤ 1) × ((pending a h ≡ 0) ⊎ (config.compilation_threshold ≤ h.block_requests a))
Reached-pending host walk call config s memory n h r small a =
    let i = Reached-IsOnce host walk call config s memory n h r small in
    (i.once a, elim (i.asked a) [ inl z ↦ inl z | inr u ↦ inr (omega (arith, u, i.fixed)) ])
