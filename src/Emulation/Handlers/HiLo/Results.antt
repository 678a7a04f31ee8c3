-- ===== src/Emulation/Handlers/HiLo/Results.antt =====
-- What the multiplications and divisions of src/emulation/interpreter_core.cpp leave in HI and LO.
use ji_tboy.Base.{
  ℕ, ◌+◌, ◌*◌, ◌/◌, ◌%◌, ◌^◌, ◌<◌, ◌≡◌, ◌≢◌, refl, sym, ◌∙◌, ap, arith, bit_and, ◌>>>◌, IsU32,
  ==-ne, ok, set, ◌≤◌, xor, is_neg32, abs32, Bool-cases, true, inl, inr, ◌-◌, if◌then◌else◌,
  get_or-set_ne, get_or-set_self, length, length-set,
}
use native.Mathlib.Nat.{mul-le-mul, add-mul, mul-add, mul_comm, div-add-mod', mod-lt}
use ji_tboy.Bits.Field.{bit_and_mask}
use ji_tboy.Mips.Isa.{InstructionR, Register}
use ji_tboy.Mips.RegisterFile.{RegisterFile, assign, hi, lo, hi_reg, lo_reg, read}
use ji_tboy.Mips.Program.{Program}
use ji_tboy.Emulation.State.{EmulatorState, reg}
use ji_tboy.Emulation.Guest.{IsGuest, reg-lt}
use ji_tboy.Emulation.Handlers.HiLo.{
  product64, execute_mult, set_hi, set_lo, execute_multu, execute_divu,
}

-- HI and LO after both are assigned.
set_lo_hi-lo :
    (f : RegisterFile) (l h : ℕ) → length f.regs ≡ 34 → lo (assign (assign f lo_reg l) hi_reg h) ≡ l
unfolding lo read assign
set_lo_hi-lo f l h e =
    get_or-set_ne (set f.regs lo_reg l) hi_reg lo_reg h 0 (omega arith)
    ∙ get_or-set_self f.regs lo_reg l 0 (omega arith)

set_lo_hi-hi :
    (f : RegisterFile) (l h : ℕ) → length f.regs ≡ 34 → hi (assign (assign f lo_reg l) hi_reg h) ≡ h
unfolding hi read assign
set_lo_hi-hi f l h e =
    get_or-set_self (set f.regs lo_reg l) hi_reg h 0 (omega (arith, length-set f.regs lo_reg l))

pub product-lt : (a b : ℕ) → IsU32 a → IsU32 b → a * b < 2 ^ 64
product-lt a b h g =
    let k : a * b ≤ 0xffff_ffff * 0xffff_ffff =
      mul-le-mul {n₂ = 0xffff_ffff} {m₂ = 0xffff_ffff} (omega arith) (omega arith) in
    omega arith

-- In a valid state, `multu` leaves the product of its operands in HI and LO.
pub execute_multu-product :
    (p : Program) (x : InstructionR) (s : EmulatorState)
    → IsGuest p s
    → hi (execute_multu x s).regs * 2 ^ 32 + lo (execute_multu x s).regs ≡ reg s x.rs * reg s x.rt
unfolding execute_multu set_hi set_lo
execute_multu-product p x s g =
    let r = reg s x.rs * reg s x.rt % 2 ^ 64 in
    let k = product-lt (reg s x.rs) (reg s x.rt) (reg-lt g x.rs) (reg-lt g x.rt) in
    let size = g.registers.size in
    rw
      (
        set_lo_hi-lo s.regs (bit_and r 0xFFFF_FFFF) (r >>> 32) size,
        set_lo_hi-hi s.regs (bit_and r 0xFFFF_FFFF) (r >>> 32) size,
        bit_and_mask 32 r,
      )
      (omega arith)

-- `x` stands for the negative of `a` modulo 2 ^ 64.
neg-mul_pos :
    (x a b : ℕ) → x + a ≡ 2 ^ 64 → a * b < 2 ^ 64 → x * b % 2 ^ 64 ≡ (2 ^ 64 - a * b) % 2 ^ 64
neg-mul_pos x a b e h =
    let k : x * b + a * b ≡ 2 ^ 64 * b = sym (add-mul x a b) ∙ ap (λ n. n * b) e in omega arith

neg-mul_neg :
    (x a y b : ℕ)
    → x + a ≡ 2 ^ 64
    → y + b ≡ 2 ^ 64
    → a < 2 ^ 32
    → b < 2 ^ 32
    → a * b < 2 ^ 64
    → x * y % 2 ^ 64 ≡ a * b
neg-mul_neg x a y b e f u v h =
    let k : x * b + a * b ≡ 2 ^ 64 * b = sym (add-mul x a b) ∙ ap (λ n. n * b) e in
    let l : x * y + x * b ≡ x * 2 ^ 64 = sym (mul-add x y b) ∙ ap (λ n. x * n) f in omega arith

-- The product of the magnitudes, negated modulo 2 ^ 64 if the signs differ.
pub signed_product : ℕ → ℕ → ℕ
signed_product a b =
    if xor (is_neg32 a) (is_neg32 b)
    then (2 ^ 64 - abs32 a * abs32 b) % 2 ^ 64
    else abs32 a * abs32 b

negated-lt : (a : ℕ) → is_neg32 a ≡ true → IsU32 (0x1_0000_0000 - a)
negated-lt a e = ground (arith, e)

product64-signed_product : (a b : ℕ) → IsU32 a → IsU32 b → product64 a b ≡ signed_product a b
unfolding signed_product mathlib.Core.Bool.xor
product64-signed_product a b h g = elim (Bool-cases (is_neg32 a)) [
  | inl e ↦ elim (Bool-cases (is_neg32 b)) [
    | inl f ↦
        rw (e, f)
          (neg-mul_neg (a + 0xffff_ffff_0000_0000) (0x1_0000_0000 - a) (b + 0xffff_ffff_0000_0000)
            (0x1_0000_0000 - b) (omega arith) (omega arith) (negated-lt a e) (negated-lt b f)
            (product-lt _ _ (negated-lt a e) (negated-lt b f)))
    | inr f ↦
        rw (e, f)
          (neg-mul_pos (a + 0xffff_ffff_0000_0000) (0x1_0000_0000 - a) b (omega arith)
            (product-lt _ b (negated-lt a e) g))
  ]
  | inr e ↦ elim (Bool-cases (is_neg32 b)) [
    | inl f ↦
        rw (e, f)
          (ap (λ n. n % 2 ^ 64) (mul_comm a (b + 0xffff_ffff_0000_0000))
            ∙ neg-mul_pos (b + 0xffff_ffff_0000_0000) (0x1_0000_0000 - b) a (omega arith)
                (product-lt _ a (negated-lt b f) h)
            ∙ ap (λ n. (2 ^ 64 - n) % 2 ^ 64) (mul_comm (0x1_0000_0000 - b) a))
    | inr f ↦ rw (e, f) (omega (arith, product-lt a b h g))
  ]
]

-- In a valid state, `mult` leaves the signed product of its operands in HI and LO, as a 64-bit
-- pattern.
pub execute_mult-signed_product :
    (p : Program) (x : InstructionR) (s : EmulatorState)
    → IsGuest p s
    → hi (execute_mult x s).regs * 2 ^ 32 + lo (execute_mult x s).regs
      ≡ signed_product (reg s x.rs) (reg s x.rt)
unfolding execute_mult set_hi set_lo
execute_mult-signed_product p x s g =
    let r = product64 (reg s x.rs) (reg s x.rt) in
    let size = g.registers.size in
    rw
      (
        set_lo_hi-lo s.regs (bit_and r 0xFFFF_FFFF) (r >>> 32) size,
        set_lo_hi-hi s.regs (bit_and r 0xFFFF_FFFF) (r >>> 32) size,
        bit_and_mask 32 r,
      )
      (omega arith
        ∙ product64-signed_product (reg s x.rs) (reg s x.rt) (reg-lt g x.rs) (reg-lt g x.rt))

read-set_lo :
    (f : RegisterFile) (l : ℕ) (r : Register) → r < 32 → read (assign f lo_reg l) r ≡ read f r
unfolding read assign
read-set_lo f l r h = get_or-set_ne f.regs lo_reg r l 0 (omega arith)

divided : EmulatorState → ℕ → ℕ → EmulatorState
divided s l h = record s { regs = assign (assign s.regs lo_reg l) hi_reg h }

-- In a valid state, `divu` of two general registers, the second of which is not 0, leaves the
-- quotient in LO and the remainder in HI.
pub execute_divu-quotient :
    (p : Program) (x : InstructionR) (s : EmulatorState)
    → IsGuest p s
    → x.rs < 32
    → x.rt < 32
    → reg s x.rt ≢ 0
    → (s' : EmulatorState) × (execute_divu x s ≡ ok s')
      × (lo s'.regs * reg s x.rt + hi s'.regs ≡ reg s x.rs)
      × (hi s'.regs < reg s x.rt)
unfolding execute_divu set_hi set_lo divided reg
execute_divu-quotient p x s g hs ht ne =
    let a = reg s x.rs in
    let b = reg s x.rt in
    let q = a / b in
    let size = g.registers.size in
    (
      divided s q (a % b),
      rw (==-ne b 0 ne, read-set_lo s.regs q x.rs hs, read-set_lo s.regs q x.rt ht) refl,
      rw (set_lo_hi-lo s.regs q (a % b) size, set_lo_hi-hi s.regs q (a % b) size)
          (div-add-mod' a b),
      rw (set_lo_hi-hi s.regs q (a % b) size) (mod-lt a (omega arith)),
    )
