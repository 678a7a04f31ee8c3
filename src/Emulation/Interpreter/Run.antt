-- ===== src/Emulation/Interpreter/Run.antt =====
-- The loop of src/emulation/interpreter.cpp against a step relation.
use ji_tboy.Base.{
  ℕ, zero, suc, ◌+◌, ◌%◌, ◌^◌, ◌≡◌, refl, sym, ◌∙◌, ap, arith, true, false, Bool-cases, inl, inr,
  ok, ◌>>=◌, bind-eq_ok, Holds, Holds-bind,
}
use ji_tboy.Mips.Program.{Program}
use ji_tboy.Emulation.State.{EmulatorState, valid_pc}
use ji_tboy.Emulation.Guest.{IsGuest, IsProgram, Holds-choice}
use ji_tboy.Emulation.InterpreterCore.{execute_current}
use ji_tboy.Emulation.InterpreterCore.Validity.{execute_current-IsGuest}
use ji_tboy.Emulation.Interpreter.{Interpreter, round, run}

-- `Steps depth k s s'`: `k` rounds lead from `s` to `s'`, each at a program counter in the program.
pub data Steps (depth : ℕ) : ℕ → EmulatorState → EmulatorState → Type 0 where
  done : (s : EmulatorState) → Steps depth 0 s s
  step :
      {k : ℕ} (s t u : EmulatorState)
      → valid_pc s ≡ true
      → execute_current depth s ≡ ok t
      → Steps depth k t u
      → Steps depth (suc k) s u

count-suc : (a k : ℕ) → ((a + 1) % 2 ^ 64 + k) % 2 ^ 64 ≡ (a + suc k) % 2 ^ 64
count-suc a k = omega arith

-- The end of a run: some rounds lead to it, the counter has advanced by their number, and the
-- program counter has left the program.
pub record Ran (depth : ℕ) (it it' : Interpreter) : Type 0 where
  pub rounds : ℕ
  pub steps : Steps depth rounds it.state it'.state
  pub counted : it'.executed_instructions % 2 ^ 64 ≡ (it.executed_instructions + rounds) % 2 ^ 64
  pub left_program : valid_pc it'.state ≡ false

run_eq_true :
    (fuel depth : ℕ) (it : Interpreter)
    → valid_pc it.state ≡ true
    → run (suc fuel) depth it ≡ (round depth it >>= run fuel depth)
unfolding run
run_eq_true fuel depth it h = rw h refl

run_eq_false :
    (fuel depth : ℕ) (it : Interpreter)
    → valid_pc it.state ≡ false
    → run (suc fuel) depth it ≡ ok it
unfolding run
run_eq_false fuel depth it h = rw h refl

after : EmulatorState → Interpreter → Interpreter
after s it = record { state = s; executed_instructions = (it.executed_instructions + 1) % 2 ^ 64 }

-- A round of the loop, seen from its result.
round-eq_ok :
    (depth : ℕ) (it next : Interpreter)
    → round depth it ≡ ok next
    → (s : EmulatorState) × (execute_current depth it.state ≡ ok s) × (after s it ≡ next)
unfolding round after
round-eq_ok depth it next h =
    let (s, e, f) = bind-eq_ok (execute_current depth it.state) _ h in (s, e, cc)

round_ok :
    (depth : ℕ) (it : Interpreter) (s : EmulatorState)
    → execute_current depth it.state ≡ ok s
    → round depth it ≡ ok (after s it)
unfolding round after
round_ok depth it s e = rw e refl

Ran-step :
    (depth : ℕ) (it it' : Interpreter) (s : EmulatorState)
    → valid_pc it.state ≡ true
    → execute_current depth it.state ≡ ok s
    → Ran depth (after s it) it'
    → Ran depth it it'
unfolding after
Ran-step depth it it' s v e r = record {
  rounds = suc r.rounds;
  steps = step it.state s it'.state v e r.steps;
  counted = r.counted ∙ count-suc it.executed_instructions r.rounds;
  left_program = r.left_program;
}

run-step :
    (fuel depth : ℕ) (it it' : Interpreter)
    → ((next : Interpreter) → run fuel depth next ≡ ok it' → Ran depth next it')
    → valid_pc it.state ≡ true
    → run (suc fuel) depth it ≡ ok it'
    → Ran depth it it'
run-step fuel depth it it' ih v h =
    let (next, e, f) =
      bind-eq_ok (round depth it) (run fuel depth) (sym (run_eq_true fuel depth it v) ∙ h) in
    let (s, k, j) = round-eq_ok depth it next e in
    Ran-step depth it it' s v k (ih (after s it) (ap (run fuel depth) j ∙ f))

Ran-done :
    (depth : ℕ) (it it' : Interpreter) → valid_pc it.state ≡ false → it ≡ it' → Ran depth it it'
Ran-done depth it it' v e =
    rw⁻¹ e (record { rounds = 0; steps = done it.state; counted = omega arith; left_program = v })

ok-injective : (a b : Interpreter) → ok a ≡ ok b → a ≡ b
ok-injective a b h = cc

-- What the loop returns is reached by rounds that start inside the program, the counter has
-- advanced by their number modulo 2 ^ 64, and the program counter has left the program.
pub run-Ran :
    (fuel depth : ℕ) (it it' : Interpreter) → run fuel depth it ≡ ok it' → Ran depth it it'
unfolding run
run-Ran zero depth it it' h = cc
run-Ran (suc fuel) depth it it' h = elim (Bool-cases (valid_pc it.state)) [
  | inl v ↦ run-step fuel depth it it' (λ next. run-Ran fuel depth next it') v h
  | inr v ↦ Ran-done depth it it' v (ok-injective it it' (sym (run_eq_false fuel depth it v) ∙ h))
]

-- If `k` rounds lead to a state outside the program, the loop returns that state with a fuel of `k
-- + 1`.
pub Steps-run :
    (depth k : ℕ) (it : Interpreter) (s' : EmulatorState)
    → Steps depth k it.state s'
    → valid_pc s' ≡ false
    → (it' : Interpreter) × (run (suc k) depth it ≡ ok it') × (it'.state ≡ s')
Steps-run depth zero it s' (done _) v = (it, run_eq_false 0 depth it v, refl)
Steps-run depth (suc j) it s' (step s t u h e r) v =
    let (it', f, g) = Steps-run depth j (after t it) s' (unfold after in r) v in
    (
      it',
      run_eq_true (suc j) depth it h
          ∙ ap (λ m. m >>= run (suc j) depth) (round_ok depth it t e)
          ∙ f,
      g,
    )

-- If the constants of the program are 16-bit patterns, the loop keeps the state valid when it
-- returns.
pub run-IsGuest :
    (p : Program)
    → IsProgram p
    → (fuel depth : ℕ) (it : Interpreter) → IsGuest p it.state
    → Holds (λ it'. IsGuest p it'.state) (run fuel depth it)
unfolding run round after
run-IsGuest p f zero depth it g = tt
run-IsGuest p f (suc fuel) depth it g =
    Holds-choice (λ it'. IsGuest p it'.state) (valid_pc it.state) _ (ok it)
      (Holds-bind (λ it'. IsGuest p it'.state) (λ it'. IsGuest p it'.state) (round depth it)
        (run fuel depth)
        (Holds-bind (IsGuest p) (λ it'. IsGuest p it'.state) (execute_current depth it.state)
          (λ s. ok (after s it)) (execute_current-IsGuest p f depth it.state g) (λ s h. h))
        (λ it' h. run-IsGuest p f fuel depth it' h))
      g
