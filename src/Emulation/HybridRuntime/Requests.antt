-- ===== src/Emulation/HybridRuntime/Requests.antt =====
-- The requests for blocks in src/emulation/hybrid_runtime.cpp, and the blocks that are asked for.
use ji_tboy.Base.{
  ℕ, suc, ◌+◌, ◌%◌, ◌^◌, ◌≤◌, ◌<◌, ◌≡◌, ◌⊎◌, refl, ◌∙◌, ap, arith, Bool, Bool-cases, inl, inr, true,
  false, ◌==◌, ltb, if◌then◌else◌, ==-self, List, [], ◌∷◌, map, Option, none, some, hit, hit-cases,
  occurrences, occurrences-append,
}
use ji_tboy.Mips.Program.{valid_addr}
use ji_tboy.Emulation.JumpResolver.{code_of, is_null}
use ji_tboy.Emulation.CompiledBlock.{CompiledBlock, UnconditionalJump, ConditionalJump}
use ji_tboy.Emulation.HybridRuntime.{
  HybridRuntime, Result, schedule, set_requests, try_compile, try_targets, try_cond_targets,
  try_block, speculatively_compile, request,
}

abbrev pub threshold : HybridRuntime → ℕ
threshold h = h.config.compilation_threshold

abbrev pub held : Option ℕ → ℕ
held none = 0
held (some code) = 1

abbrev pub addrs : List Result → List ℕ
addrs = map (λ r. r.addr)

-- The blocks for an address, over all stages: jobs, results on their way, and the map
unfoldable pub pending : ℕ → HybridRuntime → ℕ
pending a h =
    occurrences a h.jobs
    + (occurrences a (addrs h.announced)
        + (occurrences a (addrs h.results) + held (code_of (h.blocks a))))

-- There is at most one block for each address, and one only where the threshold was reached. After
-- `n` requests, no counter is above the threshold by more.
pub record IsOnce (t n : ℕ) (h : HybridRuntime) : Type 0 where
  pub once : (a : ℕ) → pending a h ≤ 1
  pub asked : (a : ℕ) → (pending a h ≡ 0) ⊎ (threshold h ≤ h.block_requests a)
  pub bounded : (a : ℕ) → h.block_requests a ≤ n + threshold h
  pub fixed : threshold h ≡ t

-- The requests are the same, and so is the number of blocks for each address.
pub record Same (h h' : HybridRuntime) : Type 0 where
  pub same_pending : (a : ℕ) → pending a h' ≡ pending a h
  pub same_requests : (a : ℕ) → h'.block_requests a ≡ h.block_requests a
  pub same_threshold : threshold h' ≡ threshold h

pub Same-IsOnce : {t : ℕ} (n : ℕ) (h h' : HybridRuntime) → Same h h' → IsOnce t n h → IsOnce t n h'
Same-IsOnce n h h' s i = record {
  once = λ a. omega (arith, s.same_pending a, i.once a);
  asked = λ a. elim (i.asked a) [
    | inl z ↦ inl (s.same_pending a ∙ z)
    | inr t ↦ inr (omega (arith, t, s.same_threshold, s.same_requests a))
  ];
  bounded = λ a. omega (arith, i.bounded a, s.same_threshold, s.same_requests a);
  fixed = s.same_threshold ∙ i.fixed;
}

schedule-pending :
    (a addr : ℕ) (h : HybridRuntime) → pending a (schedule addr h) ≡ pending a h + hit a addr
unfolding pending schedule occurrences
schedule-pending a addr h = let e = occurrences-append a h.jobs (addr ∷ []) in omega (arith, e)

requests_self : (addr v : ℕ) (h : HybridRuntime) → (set_requests addr v h).block_requests addr ≡ v
unfolding set_requests
requests_self addr v h = rw (==-self addr) refl

-- A counter set to at least what it was
raise :
    {t : ℕ} (n m addr v : ℕ) (h : HybridRuntime)
    → n ≤ m
    → h.block_requests addr ≤ v
    → v ≤ m + threshold h
    → IsOnce t n h
    → IsOnce t m (set_requests addr v h)
unfolding set_requests pending
raise n m addr v h le up down i = record {
  once = i.once;
  asked = λ a. elim (Bool-cases (a == addr)) [
    | inl t ↦ elim (i.asked a) [
      | inl z ↦ inl z
      | inr u ↦ inr (
          rw t (
            let e = ap h.block_requests {x = a} {y = addr} (ground (arith, t)) in
            omega (arith, up, u, e)))
    ]
    | inr t ↦ rw t (i.asked a)
  ];
  bounded = λ a. elim (Bool-cases (a == addr)) [
    | inl t ↦ rw t down
    | inr t ↦ rw t (omega (arith, i.bounded a, le))
  ];
  fixed = i.fixed;
}

unchanged : (a addr v : ℕ) (h : HybridRuntime) → pending a (set_requests addr v h) ≡ pending a h
unfolding set_requests pending
unchanged a addr v h = refl

-- A job for an address whose counter reaches the threshold
reach :
    {t : ℕ} (n m addr v : ℕ) (h : HybridRuntime)
    → n ≤ m
    → h.block_requests addr < threshold h
    → threshold h ≤ v
    → v ≤ m + threshold h
    → IsOnce t n h
    → IsOnce t m (schedule addr (set_requests addr v h))
unfolding set_requests schedule
reach n m addr v h le below up down i =
    let raised = raise n m addr v h le (omega (arith, below, up)) down i in
    let fresh : pending addr h ≡ 0 = elim (i.asked addr) [
      | inl z ↦ z
      | inr u ↦ absurd (omega (arith, below, u))
    ] in
    record {
      once = λ a. elim (hit-cases a addr) [
        | inl z ↦ omega (arith, schedule-pending a addr (set_requests addr v h), raised.once a, z)
        | inr (z, e) ↦
            let same = ap (λ x. pending x h) e in
            omega (
              arith,
              schedule-pending a addr (set_requests addr v h),
              z,
              fresh,
              same,
              unchanged a addr v h,
            )
      ];
      asked = λ a. elim (hit-cases a addr) [
        | inl z ↦ elim (raised.asked a) [
          | inl y ↦ inl (omega (arith, schedule-pending a addr (set_requests addr v h), y, z))
          | inr y ↦ inr y
        ]
        | inr (z, e) ↦ inr (
            let r = requests_self addr v h in
            let same = ap (set_requests addr v h).block_requests e in omega (arith, up, r, same))
      ];
      bounded = raised.bounded;
      fixed = raised.fixed;
    }

try_compile-IsOnce :
    {t : ℕ} (n addr : ℕ) (h : HybridRuntime) → IsOnce t n h → IsOnce t n (try_compile addr h)
unfolding try_compile
try_compile-IsOnce n addr h i = elim (Bool-cases (valid_addr h.state.program addr)) [
  | inl v ↦ elim (Bool-cases (ltb (h.block_requests addr) h.config.compilation_threshold)) [
    | inl t ↦ rw v (
        rw t (
          reach n n addr h.config.compilation_threshold h (omega arith) (ground (arith, t))
            (omega arith) (omega arith) i))
    | inr t ↦ rw v (rw t i)
  ]
  | inr v ↦ rw v i
]

try_if :
    {t : ℕ} (n addr : ℕ) (c : Bool) (h : HybridRuntime)
    → IsOnce t n h
    → IsOnce t n (if c then try_compile addr h else h)
try_if n addr true h i = try_compile-IsOnce n addr h i
try_if n addr false h i = i

try_targets-IsOnce :
    {t : ℕ} (n : ℕ) (js : List UnconditionalJump) (h : HybridRuntime)
    → IsOnce t n h
    → IsOnce t n (try_targets js h)
unfolding try_targets
try_targets-IsOnce n [] h i = i
try_targets-IsOnce n (j ∷ js) h i =
    try_targets-IsOnce n js _ (try_if n j.dst_mips (is_null j.dst_x86) h i)

try_cond_targets-IsOnce :
    {t : ℕ} (n : ℕ) (js : List ConditionalJump) (h : HybridRuntime)
    → IsOnce t n h
    → IsOnce t n (try_cond_targets js h)
unfolding try_cond_targets
try_cond_targets-IsOnce n [] h i = i
try_cond_targets-IsOnce n (j ∷ js) h i = try_cond_targets-IsOnce n js _ (
    try_if n j.dst_true_mips (is_null j.dst_true_x86) _
      (try_if n j.dst_false_mips (is_null j.dst_false_x86) h i))

try_block-IsOnce :
    {t : ℕ} (n : ℕ) (o : Option CompiledBlock) (h : HybridRuntime)
    → IsOnce t n h
    → IsOnce t n (try_block o h)
unfolding try_block
try_block-IsOnce n none h i = i
try_block-IsOnce n (some block) h i =
    try_cond_targets-IsOnce n block.unresolved_cond_jumps _
      (try_targets-IsOnce n block.unresolved_jumps h i)

pub speculatively_compile-IsOnce :
    {t : ℕ} (n : ℕ) (order : List ℕ) (h : HybridRuntime)
    → IsOnce t n h
    → IsOnce t n (speculatively_compile order h)
unfolding speculatively_compile
speculatively_compile-IsOnce n [] h i = i
speculatively_compile-IsOnce n (addr ∷ order) h i =
    speculatively_compile-IsOnce n order _ (try_block-IsOnce n (h.blocks addr) h i)

-- Counting a request, as long as the counters cannot wrap
pub request-IsOnce :
    {t : ℕ} (n addr : ℕ) (h : HybridRuntime)
    → n + threshold h + 1 < 2 ^ 64
    → IsOnce t n h
    → IsOnce t (suc n) (request addr h)
unfolding request
request-IsOnce n addr h small i =
    let b = i.bounded addr in
    let next : (h.block_requests addr + 1) % 2 ^ 64 ≡ h.block_requests addr + 1 =
      omega (arith, b, small) in
    rw next (elim (Bool-cases (h.block_requests addr + 1 == h.config.compilation_threshold)) [
      | inl t ↦ rw t (
          let e : h.block_requests addr + 1 ≡ h.config.compilation_threshold = ground (arith, t) in
          reach n (suc n) addr (h.block_requests addr + 1) h (omega arith) (omega (arith, e))
            (omega (arith, e)) (omega (arith, b)) i)
      | inr t ↦ rw t (
          raise n (suc n) addr (h.block_requests addr + 1) h (omega arith) (omega arith)
            (omega (arith, b)) i)
    ])
