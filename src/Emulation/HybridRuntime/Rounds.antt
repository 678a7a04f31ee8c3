-- ===== src/Emulation/HybridRuntime/Rounds.antt =====
-- What the loop of src/emulation/hybrid_runtime.cpp does to the requests for blocks.
use ji_tboy.Base.{
  ℕ, suc, ◌+◌, ◌-◌, ◌%◌, ◌^◌, ◌<◌, ◌≡◌, ◌⊎◌, refl, ◌∙◌, ap, arith, Bool, Bool-cases, inl, inr, true,
  false, ◌==◌, if◌then◌else◌, List, [], ◌∷◌, ◌++◌, Option, none, some, hit, hit_self, hit-cases,
  occurrences, Outcome, ok, Holds, Holds-if, Holds-bind, Holds-map, Holds-weaken,
}
use ji_tboy.Mips.Program.{at}
use ji_tboy.Mips.Classify.{is_branch_instr}
use ji_tboy.Emulation.InterpreterCore.{execute_current}
use ji_tboy.Emulation.State.{EmulatorState}
use ji_tboy.Emulation.CompiledBlock.{CompiledBlock}
use ji_tboy.Emulation.JumpResolver.{code_of, resolve_jumps, resolve_cond_list, resolve_list}
use ji_tboy.Emulation.BlockMap.{Blocks, insert, relink, relink_at}
use ji_tboy.Emulation.BlockMap.Relinked.{Agrees, insert-Agrees}
use ji_tboy.Emulation.HybridRuntime.{
  HybridRuntime, Result, dequeue, rethrow, is_empty, get_or_request, interpret, relink_blocks,
  use_results, consume_results, try_get_block, execute_found, round, counted,
}
use ji_tboy.Emulation.HybridRuntime.Requests.{
  held, addrs, pending, IsOnce, Same, Same-IsOnce, speculatively_compile-IsOnce, request-IsOnce,
}

pub addrs-append :
    (a : ℕ) (xs ys : List Result)
    → occurrences a (addrs (xs ++ ys)) ≡ occurrences a (addrs xs) + occurrences a (addrs ys)
unfolding occurrences
addrs-append a [] ys = omega arith
addrs-append a (x ∷ xs) ys = omega (arith, addrs-append a xs ys)

held-cases : (o : Option ℕ) → (held o ≡ 0) ⊎ (held o ≡ 1)
held-cases none = inl refl
held-cases (some d) = inr refl

no_results : (h : HybridRuntime) → h.results ≡ [] → Same h (record h { results = [] })
unfolding pending
no_results h e = record {
  same_pending = λ a. let was = ap (λ l. occurrences a (addrs l)) e in omega (arith, was);
  same_requests = λ a. refl;
  same_threshold = refl;
}

-- Taking one result moves its block into the map.
take_result :
    {t : ℕ} (n : ℕ) (result : Result) (rest : List Result) (h : HybridRuntime) (expected : ℕ)
    → h.results ≡ result ∷ rest
    → IsOnce t n h
    → Same h (record h {
      blocks = insert result.addr result.block h.blocks;
      results = rest;
      results_expected = expected;
    })
unfolding pending insert occurrences
take_result n result rest h expected e i = record {
  same_pending = λ a.
      let was = ap (λ l. occurrences a (addrs l)) e in
      let o = i.once a in
      elim (Bool-cases (a == result.addr)) [
        | inl t ↦ rw t (
            let one = ap (hit a) {x = result.addr} {y = a} (ground (arith, t)) in
            let self = hit_self a in
            let there = held-cases (code_of (h.blocks a)) in
            elim there [
              | inl z ↦ omega (arith, was, o, one, self, z)
              | inr z ↦ absurd (omega (arith, was, o, one, self, z))
            ])
        | inr t ↦ rw t (elim (hit-cases a result.addr) [
          | inl z ↦ omega (arith, was, z)
          | inr (z, same) ↦ absurd (ground (arith, t, same))
        ])
      ];
  same_requests = λ a. refl;
  same_threshold = refl;
}

dequeue-IsOnce :
    {t : ℕ} (n : ℕ) (rs : List Result) (h : HybridRuntime)
    → h.results ≡ rs
    → IsOnce t n h
    → IsOnce t n (dequeue rs h)
unfolding dequeue
dequeue-IsOnce n [] h e i = Same-IsOnce n h (record h { results = [] }) (no_results h e) i
dequeue-IsOnce n (r ∷ rs) h e i =
    dequeue-IsOnce n rs _ refl
      (Same-IsOnce n h _ (take_result n r rs h (h.results_expected - 1) e i) i)

resolve_jumps-code :
    (blocks : Blocks) (b : CompiledBlock) (memory : ℕ → ℕ)
    → Holds (λ (b', memory'). b'.code ≡ b.code) (resolve_jumps blocks b memory)
unfolding resolve_jumps
resolve_jumps-code blocks b memory =
    Holds-map (λ (b', memory'). b'.code ≡ b.code)
      (resolve_cond_list blocks b.unresolved_cond_jumps
        (resolve_list blocks b.unresolved_jumps memory).1)
      _ (λ p. refl)

relink_at-Agrees :
    (addr : ℕ) (o : Option CompiledBlock) (blocks : Blocks) (memory : ℕ → ℕ)
    → blocks addr ≡ o
    → Holds (λ (blocks', memory'). Agrees blocks blocks') (relink_at addr o blocks memory)
unfolding relink_at Agrees
relink_at-Agrees addr none blocks memory e = λ a. refl
relink_at-Agrees addr (some b) blocks memory e =
    Holds-bind (λ (b', memory'). b'.code ≡ b.code) _ (resolve_jumps blocks b memory) _
      (resolve_jumps-code blocks b memory) (λ (b', memory') s. insert-Agrees addr b b' blocks e s)

relink-Agrees :
    (order : List ℕ) (blocks : Blocks) (memory : ℕ → ℕ)
    → Holds (λ (blocks', memory'). Agrees blocks blocks') (relink order blocks memory)
unfolding relink Agrees
relink-Agrees [] blocks memory = λ a. refl
relink-Agrees (addr ∷ order) blocks memory =
    Holds-bind (λ (middle, m). Agrees blocks middle) _ (relink_at addr (blocks addr) blocks memory)
      _ (relink_at-Agrees addr (blocks addr) blocks memory refl)
      (λ (middle, m) k.
        Holds-weaken (λ (blocks', m'). Agrees middle blocks') _ (relink order middle m)
          (λ (blocks', m') q a. q a ∙ k a) (relink-Agrees order middle m))

either : {A : Type 0} (P : A → Type 0) (c : Bool) (x y : A) → P x → P y → P (if c then x else y)
either P true x y p q = p
either P false x y p q = q

later : {t n : ℕ} (h : HybridRuntime) → IsOnce t n h → IsOnce t (suc n) h
later h i = record {
  once = i.once;
  asked = i.asked;
  bounded = λ a. omega (arith, i.bounded a);
  fixed = i.fixed;
}

-- Blocks whose codes are where they were
codes-Same :
    (h : HybridRuntime) (blocks : Blocks) (memory : ℕ → ℕ) (s : EmulatorState) (count : ℕ)
    → Agrees h.blocks blocks
    → Same h
        (record h { blocks = blocks; memory = memory; state = s; interpreted_instructions = count })
unfolding pending Agrees
codes-Same h blocks memory s count k = record {
  same_pending = λ a.
      ap
        (λ o.
          occurrences a h.jobs
          + (occurrences a (addrs h.announced) + (occurrences a (addrs h.results) + held o)))
        (k a);
  same_requests = λ a. refl;
  same_threshold = refl;
}

module _ (walk : Blocks → List ℕ)
    (call : CompiledBlock → (ℕ → ℕ) → EmulatorState → Outcome (ℕ × EmulatorState)) (t n : ℕ) where
  relink_blocks-IsOnce :
      (h : HybridRuntime) → IsOnce t n h → Holds (IsOnce t n) (relink_blocks walk call h)
  unfolding relink_blocks
  relink_blocks-IsOnce h i =
      Holds-if (IsOnce t n) h.config.direct_linking _ _
        (λ c.
          Holds-bind (λ (blocks, m). Agrees h.blocks blocks) (IsOnce t n)
            (relink (walk h.blocks) h.blocks h.memory) _
            (relink-Agrees (walk h.blocks) h.blocks h.memory)
            (λ (blocks, m) k.
              Same-IsOnce n h _ (codes-Same h blocks m h.state h.interpreted_instructions k) i))
        (λ c. i)

  use_results-IsOnce :
      (h : HybridRuntime) → IsOnce t n h → Holds (IsOnce t n) (use_results walk call h)
  unfolding use_results
  use_results-IsOnce h i =
      Holds-bind (IsOnce t n) (IsOnce t n) (relink_blocks walk call h) _ (relink_blocks-IsOnce h i)
        (λ h' j.
          either (IsOnce t n) h'.config.speculative_compilation _ _
            (speculatively_compile-IsOnce n (walk h'.blocks) h' j) j)

  consume_results-IsOnce :
      (h : HybridRuntime) → IsOnce t n h → Holds (IsOnce t n) (consume_results walk call h)
  unfolding consume_results
  consume_results-IsOnce h i =
      let taken = dequeue-IsOnce n h.results h refl i in
      Holds-if (IsOnce t n) (h.results_expected == 0) _ _ (λ c. i)
        (λ c. Holds-map (IsOnce t n) (rethrow h.exceptions) _ (λ exceptions.
          Holds-if (IsOnce t n) (is_empty h.results) _ _ (λ d. taken)
            (λ d. use_results-IsOnce (dequeue h.results h) taken)))

  -- The result is the block in the map, if there is one.
  abbrev IsServed : ℕ → Option CompiledBlock × HybridRuntime → Type 0
  IsServed addr (o, h) = IsOnce t (suc n) h × ((o ≡ none) ⊎ (h.blocks addr ≡ o))

  get_or_request-IsServed :
      (addr : ℕ) (o : Option CompiledBlock) (h : HybridRuntime)
      → n + t + 1 < 2 ^ 64
      → h.blocks addr ≡ o
      → IsOnce t n h
      → IsServed addr (get_or_request addr o h)
  unfolding get_or_request
  get_or_request-IsServed addr none h small e i =
      (request-IsOnce n addr h (omega (arith, small, i.fixed)) i, inl refl)
  get_or_request-IsServed addr (some b) h small e i = (later h i, inr e)

  try_get_block-IsServed :
      (addr : ℕ) (h : HybridRuntime)
      → n + t + 1 < 2 ^ 64
      → IsOnce t n h
      → Holds (IsServed addr) (try_get_block walk call addr h)
  unfolding try_get_block
  try_get_block-IsServed addr h small i =
      Holds-bind (IsOnce t n) (IsServed addr) (consume_results walk call h) _
        (consume_results-IsOnce h i)
        (λ h' j. get_or_request-IsServed addr (h'.blocks addr) h' small refl j)

  abbrev pub After : Bool × HybridRuntime → Type 0
  After (jumped, h) = IsOnce t (suc n) h

  interpret-After :
      (depth : ℕ) (h : HybridRuntime) → IsOnce t (suc n) h → Holds After (interpret depth h)
  unfolding interpret Agrees
  interpret-After depth h i = Holds-map After (at h.state.program h.state.pc) _ (λ instr.
      Holds-map After (execute_current depth h.state)
        (λ (s : EmulatorState). ok (
          is_branch_instr instr,
          record h {
            state = s;
            interpreted_instructions = (h.interpreted_instructions + 1) % 2 ^ 64;
          },
        ))
        (λ s.
          Same-IsOnce (suc n) h _
            (codes-Same h h.blocks h.memory s ((h.interpreted_instructions + 1) % 2 ^ 64)
              (λ a. refl))
            i))

  execute_found-After :
      (depth addr : ℕ) (o : Option CompiledBlock) (h : HybridRuntime)
      → IsServed addr (o, h)
      → Holds After (execute_found walk call depth addr o h)
  unfolding execute_found
  execute_found-After depth addr none h (i, e) = interpret-After depth h i
  execute_found-After depth addr (some b) h (i, e) =
      let found : h.blocks addr ≡ some b = elim e [ inl x ↦ absurd cc | inr x ↦ x ] in
      Holds-map After (call b h.memory h.state) _ (λ (pc, s).
        Same-IsOnce (suc n) h _
          (codes-Same h (insert addr (counted b) h.blocks) h.memory (record s { pc = pc })
            h.interpreted_instructions (insert-Agrees addr b (counted b) h.blocks found refl))
          i)

  pub round-After :
      (depth : ℕ) (jumped : Bool) (h : HybridRuntime)
      → n + t + 1 < 2 ^ 64
      → IsOnce t n h
      → Holds After (round walk call depth jumped h)
  unfolding round
  round-After depth true h small i =
      Holds-bind (IsServed h.state.pc) After (try_get_block walk call h.state.pc h) _
        (try_get_block-IsServed h.state.pc h small i)
        (λ (o, h') s. execute_found-After depth h.state.pc o h' s)
  round-After depth false h small i = interpret-After depth h (later h i)
