-- ===== src/Base/Failure.antt =====
-- What a call of the emulator can come to. An exception is a value; `out_of_fuel` marks a
-- recursion that the fuel given did not finish, and is no result of the program.
use mathlib.Core.Bool.{Bool, true, false}
use ji_tboy.Base.Tests.{if◌then◌else◌}
use mathlib.Core.Path.{◌≡◌, refl}
use native.Mathlib.Omega.{arith}

pub data Fault : Type 0 where
  -- std::logic_error of `throw_invalid_instr`
  invalid_instr : Fault
  -- std::out_of_range or std::logic_error of a lookup outside the program or the block
  bad_addr : Fault
  -- undefined behaviour of the C++ abstract machine
  undefined : Fault
  -- std::logic_error "Cannot write to $zero"
  zero_write : Fault
  -- std::runtime_error of a branch inside of a delay slot
  branch_in_slot : Fault
  -- std::runtime_error of the linker
  unresolved_symbol : Fault
  -- std::logic_error "Cannot negate condition"
  bad_condition : Fault
  -- std::logic_error of an assembler call with a mode or size that has no encoding
  bad_mode : Fault
  -- std::runtime_error of the allocator of executable memory
  out_of_memory : Fault
  out_of_fuel : Fault

pub data Outcome {ℓ} (A : Type ℓ) : Type ℓ where
  ok : A → Outcome A
  err : Fault → Outcome A

infixl 5 ◌>>=◌
abbrev pub ◌>>=◌ {ℓ κ} : {A : Type ℓ} {B : Type κ} → Outcome A → (A → Outcome B) → Outcome B
ok a >>= f = f a
err e >>= f = err e

pub bind-eq_ok {ℓ κ} :
    {A : Type ℓ} {B : Type κ} (m : Outcome A) (f : A → Outcome B) {b : B}
    → (m >>= f) ≡ ok b
    → (a : A) × (m ≡ ok a) × (f a ≡ ok b)
bind-eq_ok (ok a) f h = (a, refl, h)
bind-eq_ok (err e) f h = cc

-- A function applied to the result may be applied inside.
pub bind-post {ℓ κ μ} :
    {A : Type ℓ} {B : Type κ} {C : Type μ} (g : B → C) (f : A → B) (m : Outcome A) (r : B)
    → (m >>= λ s. ok (f s)) ≡ ok r
    → (m >>= λ s. ok (g (f s))) ≡ ok (g r)
bind-post g f (ok s) r h = ground arith
bind-post g f (err e) r h = cc

-- A postcondition of every normal result.
abbrev pub Holds {ℓ κ} : {A : Type ℓ} → (A → Type κ) → Outcome A → Type κ
Holds P (ok a) = P a
Holds P (err e) = Unit

pub Holds-bind {ℓ κ μ ν} :
    {A : Type ℓ} {B : Type κ} (P : A → Type μ) (Q : B → Type ν) (m : Outcome A) (f : A → Outcome B)
    → Holds P m
    → ((a : A) → P a → Holds Q (f a))
    → Holds Q (m >>= f)
Holds-bind P Q (ok a) f h k = k a h
Holds-bind P Q (err e) f h k = tt

pub Holds-result {ℓ κ} :
    {A : Type ℓ} (P : A → Type κ) (m : Outcome A) (a : A) → Holds P m → m ≡ ok a → P a
Holds-result P m a h e = rw e at h

pub Holds-map {ℓ κ ν} :
    {A : Type ℓ} {B : Type κ} (Q : B → Type ν) (m : Outcome A) (f : A → Outcome B)
    → ((a : A) → Holds Q (f a))
    → Holds Q (m >>= f)
Holds-map Q (ok a) f k = k a
Holds-map Q (err e) f k = tt

pub Holds-weaken {ℓ κ ν} :
    {A : Type ℓ} (P : A → Type κ) (Q : A → Type ν) (m : Outcome A)
    → ((a : A) → P a → Q a)
    → Holds P m
    → Holds Q m
Holds-weaken P Q (ok a) f h = f a h
Holds-weaken P Q (err e) f h = tt

pub Holds-if {ℓ κ} :
    {A : Type ℓ} (P : A → Type κ) (c : Bool) (x y : Outcome A)
    → (c ≡ true → Holds P x)
    → (c ≡ false → Holds P y)
    → Holds P (if c then x else y)
Holds-if P true x y f h = f refl
Holds-if P false x y f h = h refl
