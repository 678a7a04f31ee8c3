-- ===== src/X86/Utils.antt =====
-- The negation of a condition: src/x86/utils.cpp.
use ji_tboy.Base.{◌≡◌, refl, bit_xor, Outcome, Holds, ok, err, bad_condition}
use ji_tboy.X86.Isa.{CondCode, cond_code}

unfoldable pub negate_cond : CondCode → Outcome CondCode
negate_cond CondCode.o = ok CondCode.no
negate_cond CondCode.b = ok CondCode.ae
negate_cond CondCode.e = ok CondCode.ne
negate_cond CondCode.a = ok CondCode.be
negate_cond CondCode.s = ok CondCode.ns
negate_cond CondCode.p = ok CondCode.np
negate_cond CondCode.l = ok CondCode.ge
negate_cond CondCode.g = ok CondCode.le
negate_cond CondCode.no = ok CondCode.o
negate_cond CondCode.ae = ok CondCode.b
negate_cond CondCode.ne = ok CondCode.e
negate_cond CondCode.be = ok CondCode.a
negate_cond CondCode.ns = ok CondCode.s
negate_cond CondCode.np = ok CondCode.p
negate_cond CondCode.ge = ok CondCode.l
negate_cond CondCode.le = ok CondCode.g
negate_cond (CondCode.unnamed n) = err bad_condition

-- A condition that `negate_cond` returns has the code with the lowest bit flipped, by which the
-- processor pairs opposite conditions, and is negated back to the condition given.
negate_cond-cond_code :
    (c : CondCode)
    → Holds (λ d. (cond_code d ≡ bit_xor (cond_code c) 1) × (negate_cond d ≡ ok c)) (negate_cond c)
unfolding negate_cond
negate_cond-cond_code (CondCode.unnamed n) = tt
negate_cond-cond_code _ = (refl, refl)
