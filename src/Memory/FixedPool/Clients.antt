-- ===== src/Memory/FixedPool/Clients.antt =====
-- What the clients of src/memory/fixed_pool.hpp hold, whatever the order they get and release it in.
use ji_tboy.Base.{
  hit_self, occurrences, occurrences-append, ℕ, ◌+◌, ◌≤◌, ◌<◌, ◌==◌, ◌≡◌, Bool, refl, sym, ap, ◌∙◌,
  length-append, arith, Option, none, some, List, [], ◌∷◌, ◌++◌, length, if◌then◌else◌, true, false,
}
use ji_tboy.Memory.FixedPool.Slots.{slots-once, length-slots}
use ji_tboy.Memory.FixedPool.{FixedPool, slots, initial, get, pop, release}

-- The pointers that are held, and the pool
pub record Clients : Type 0 where
  pub held : List ℕ
  pub pool : FixedPool

-- A client gets an object, or releases one that is held.
pub data Step (size : ℕ) : Clients → Clients → Type 0 where
  gets :
      {held : List ℕ} {p p' : FixedPool} (ptr : ℕ)
      → get p ≡ some (ptr, p')
      → Step size (record { held = held; pool = p }) (record { held = ptr ∷ held; pool = p' })
  releases :
      (before after : List ℕ) {p p' : FixedPool} (ptr : ℕ)
      → release size ptr p ≡ some p'
      → Step size
          (record { held = before ++ (ptr ∷ after); pool = p })
          (record { held = before ++ after; pool = p' })

pub data Steps (size : ℕ) : Clients → Clients → Type 0 where
  stop : {c : Clients} → Steps size c c
  step : {c d e : Clients} → Steps size c d → Step size d e → Steps size c e

taken : Option (ℕ × FixedPool) → List ℕ
taken none = []
taken (some (ptr, p)) = ptr ∷ p.ptr_stack

taken-pop : (stack : List ℕ) → taken (pop stack) ≡ stack
unfolding taken pop
taken-pop [] = refl
taken-pop (ptr ∷ rest) = refl

-- `get` takes its pointer off the stack.
get-stack : (p p' : FixedPool) (ptr : ℕ) → get p ≡ some (ptr, p') → p.ptr_stack ≡ ptr ∷ p'.ptr_stack
unfolding get taken
get-stack p p' ptr e = sym (taken-pop p.ptr_stack) ∙ ap taken e

stack_or : List ℕ → Option FixedPool → List ℕ
stack_or default none = default
stack_or default (some p) = p.ptr_stack

either_way :
    (c : Bool) (stack : List ℕ)
    → stack_or stack (if c then none else some (record { ptr_stack = stack })) ≡ stack
unfolding stack_or
either_way true stack = refl
either_way false stack = refl

-- `release` puts its pointer on the stack.
release-stack :
    (size ptr : ℕ) (p p' : FixedPool)
    → release size ptr p ≡ some p'
    → p'.ptr_stack ≡ ptr ∷ p.ptr_stack
unfolding release stack_or
release-stack size ptr p p' e =
    sym (ap (stack_or (ptr ∷ p.ptr_stack)) e)
    ∙ either_way (length p.ptr_stack == size) (ptr ∷ p.ptr_stack)

-- The pointers that are held and those on the stack are the slots, each as often.
pub record AreKept (pool width size : ℕ) (c : Clients) : Type 0 where
  counts :
      (x : ℕ)
      → occurrences x c.held + occurrences x c.pool.ptr_stack
        ≡ occurrences x (slots pool width size)
  total : length c.held + length c.pool.ptr_stack ≡ size

module _ (pool width size : ℕ) where
  Step-AreKept :
      (c d : Clients) → Step size c d → AreKept pool width size c → AreKept pool width size d
  unfolding occurrences
  Step-AreKept c d (gets ptr e) kept =
      let stack = get-stack c.pool d.pool ptr e in
      record {
        counts = λ x. let k = kept.counts x in let o = ap (occurrences x) stack in omega arith;
        total = let k = kept.total in let o = ap length stack in omega arith;
      }
  Step-AreKept c d (releases before after ptr e) kept =
      let stack = release-stack size ptr c.pool d.pool e in
      record {
        counts = λ x.
            let k = kept.counts x in
            let o = ap (occurrences x) stack in
            let l = occurrences-append x before (ptr ∷ after) in
            let m = occurrences-append x before after in omega arith;
        total =
            let k = kept.total in
            let o = ap length stack in
            let l = length-append before (ptr ∷ after) in
            let m = length-append before after in omega arith;
      }

  abbrev pub start : Clients
  start = record { held = []; pool = initial pool width size }

  start-AreKept : AreKept pool width size start
  unfolding occurrences initial
  start-AreKept = record {
    counts = λ x. omega arith;
    total = let l = length-slots pool width size in omega arith;
  }

  Steps-AreKept : (c : Clients) → Steps size start c → AreKept pool width size c
  Steps-AreKept c stop = start-AreKept
  Steps-AreKept c (step steps s) = Step-AreKept _ c s (Steps-AreKept _ steps)

-- A result of `get` is a pointer that none of these is.
unfoldable pub IsFresh : List ℕ → Option (ℕ × FixedPool) → Type 0
unfolding occurrences
IsFresh held none = ⊥
IsFresh held (some (ptr, p)) = occurrences ptr held ≡ 0

pop-IsFresh :
    (held stack : List ℕ) (size : ℕ)
    → length held < size
    → length held + length stack ≡ size
    → ((x : ℕ) → occurrences x held + occurrences x stack ≤ 1)
    → IsFresh held (pop stack)
unfolding IsFresh pop
pop-IsFresh held [] size h total counts = absurd (omega arith)
pop-IsFresh held (ptr ∷ rest) size h total counts =
    let once = counts ptr in let self = hit_self ptr in omega arith

-- Whatever the clients of a new pool did, by getting objects and releasing those they held, as long as
-- they hold fewer objects than the pool has, `get` does not throw and returns an object that no client
-- holds. Objects take at least one byte.
pub get-IsFresh :
    (pool width size : ℕ) (c : Clients)
    → 0 < width
    → Steps size (start pool width size) c
    → length c.held < size
    → IsFresh c.held (get c.pool)
unfolding get
get-IsFresh pool width size c w steps h =
    let kept = Steps-AreKept pool width size c steps in
    pop-IsFresh c.held c.pool.ptr_stack size h kept.total
      (λ x. let k = kept.counts x in let once = slots-once pool width size x w in omega arith)
