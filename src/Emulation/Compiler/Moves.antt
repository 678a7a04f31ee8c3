-- ===== src/Emulation/Compiler/Moves.antt =====
-- What single instructions of the processor do to a view: those that src/emulation/compiler.cpp emits.
use ji_tboy.Base.{
  ℕ, ◌+◌, ◌*◌, ◌/◌, ◌%◌, ◌^◌, ◌≡◌, ◌<◌, refl, ◌∙◌, ap, arith, Bool, true, false, ◌==◌, ==-self,
  if◌then◌else◌, none, some, not32, is_neg32, ltb, ap₂,
}
use native.Mathlib.Nat.{div-le_self}
use ji_tboy.Emulation.Handlers.HiLo.{div32, rem32, bad_division}
use mathlib.Core.Path.{subst}
use ji_tboy.X86.Processor.{
  Machine, Flags, reg, alu, alu_imm, mov, mov_imm, shift_imm, group3, set_cc, cmov_cc, get, put,
  update, step, alu_step, alu_value, shift_value, compared, holds, group3_step, multiply, divide,
  divide_signed, from_bool, with_low_byte, signed_product, put_wide, wide, reflag,
}
use ji_tboy.Emulation.Compiler.Views.{
  View, Shows, AreFlags, IsBase, Does, Place, at_eax, at_edx, operand_of, IsPlace, value, assign_at,
  get-place, put-place, set-flags,
}

module _ (other : Machine → Flags) (base : ℕ) (b : IsBase base) (v : View) where
  put_known :
      (p : Place) (m : Machine) (x y : ℕ)
      → Shows base v m
      → IsPlace p
      → x ≡ y
      → Shows base (assign_at p y v) (put (operand_of p) x m)
  put_known p m x y s h e =
      subst (λ z. Shows base (assign_at p z v) (put (operand_of p) x m)) e
        (put-place other base b p v m x s h)

  pub mov-Does :
      (p q : Place)
      → IsPlace p
      → IsPlace q
      → Does other base b v (mov (operand_of p) (operand_of q)) (assign_at p (value q v) v)
  unfolding Does step
  mov-Does p q h g m s = (_, refl, put_known p m _ _ s h (get-place other base b q v m s g))

  pub mov_imm-Does :
      (p : Place) (n : ℕ)
      → IsPlace p
      → Does other base b v (mov_imm (operand_of p) n) (assign_at p n v)
  unfolding Does step
  mov_imm-Does p n h m s = (_, refl, put-place other base b p v m n s h)

  unflagged :
      (p : Place) (m : Machine) (x : ℕ)
      → Shows base v m
      → IsPlace p
      → Shows base
          (record (assign_at p x v) { flags = none })
          (reflag other (put (operand_of p) x m))
  unfolding AreFlags
  unflagged p m x s h =
      set-flags other base b (assign_at p x v) _ _ none tt (put-place other base b p v m x s h)

  -- A computation on a place with a known value `n`, other than CMP
  compute :
      (op : ℕ) (p : Place) (n k x : ℕ)
      → IsPlace p
      → (op == 7) ≡ false
      → n ≡ k
      → alu_value op (value p v) k ≡ some x
      → (m : Machine) → Shows base v m
      → (m' : Machine) × (alu_step other op (operand_of p) n m ≡ some m')
        × Shows base (record (assign_at p x v) { flags = none }) m'
  unfolding alu_step
  compute op p n k x h ne e f m s =
      (_, rw (ne, e, get-place other base b p v m s h, f) refl, unflagged p m x s h)

  pub alu-Does :
      (op : ℕ) (p q : Place) (x : ℕ)
      → IsPlace p
      → IsPlace q
      → (op == 7) ≡ false
      → alu_value op (value p v) (value q v) ≡ some x
      → Does other base b v
          (alu op (operand_of p) (operand_of q))
          (record (assign_at p x v) { flags = none })
  unfolding Does step
  alu-Does op p q x h g ne e m s = compute op p _ _ x h ne (get-place other base b q v m s g) e m s

  pub alu_imm-Does :
      (op : ℕ) (p : Place) (n x : ℕ)
      → IsPlace p
      → (op == 7) ≡ false
      → alu_value op (value p v) n ≡ some x
      → Does other base b v
          (alu_imm op (operand_of p) n)
          (record (assign_at p x v) { flags = none })
  unfolding Does step
  alu_imm-Does op p n x h ne e m s = compute op p n n x h ne refl e m s

  pub cmp-Does :
      (p q : Place)
      → IsPlace p
      → IsPlace q
      → Does other base b v
          (alu 7 (operand_of p) (operand_of q))
          (record v { flags = some (compared (value p v) (value q v)) })
  unfolding Does step alu_step AreFlags
  cmp-Does p q h g m s = (
    _,
    refl,
    set-flags other base b v m _ _
        (rw (get-place other base b p v m s h, get-place other base b q v m s g) refl) s,
  )

  pub cmp_imm-Does :
      (p : Place) (n : ℕ)
      → IsPlace p
      → Does other base b v
          (alu_imm 7 (operand_of p) n)
          (record v { flags = some (compared (value p v) n) })
  unfolding Does step alu_step AreFlags
  cmp_imm-Does p n h m s =
      (_, refl, set-flags other base b v m _ _ (rw (get-place other base b p v m s h) refl) s)

  pub shift_imm-Does :
      (op : ℕ) (p : Place) (n x : ℕ)
      → IsPlace p
      → shift_value op (value p v) n ≡ some x
      → Does other base b v
          (shift_imm op (operand_of p) n)
          (record (assign_at p x v) { flags = none })
  unfolding Does step
  shift_imm-Does op p n x h e m s =
      (_, rw (get-place other base b p v m s h, e) refl, unflagged p m x s h)

  pub not-Does :
      (p : Place)
      → IsPlace p
      → Does other base b v
          (group3 2 (operand_of p))
          (record (assign_at p (not32 (value p v)) v) { flags = none })
  unfolding Does step group3_step
  not-Does p h m s = (_, rw (get-place other base b p v m s h) refl, unflagged p m _ s h)

  known : (m : Machine) (f : Flags) → Shows base v m → v.flags ≡ some f → m.flags ≡ f
  unfolding AreFlags
  known m f s e = subst (λ o. AreFlags o m.flags) e s.known_flags

  -- SETcc on a place that holds 0, after a comparison
  pub set_cc-Does :
      (cc : ℕ) (p : Place) (f : Flags) (t : Bool)
      → IsPlace p
      → v.flags ≡ some f
      → holds cc f ≡ some t
      → value p v ≡ 0
      → Does other base b v (set_cc cc (operand_of p)) (assign_at p (from_bool t) v)
  unfolding Does step
  set_cc-Does cc p f t h e k z m s =
      let zero = get-place other base b p v m s h ∙ z in
      (
        _,
        rw (ap (holds cc) (known m f s e) ∙ k) refl,
        put_known p m (with_low_byte (get (operand_of p) m) (from_bool t)) (from_bool t) s h
            (ap (λ w. with_low_byte w (from_bool t)) zero ∙ omega arith),
      )

  pub cmov_cc-Does :
      (cc : ℕ) (f : Flags) (t : Bool)
      → v.flags ≡ some f
      → holds cc f ≡ some t
      → Does other base b v (cmov_cc cc 0 (reg 2)) (record v { eax = if t then v.edx else v.eax })
  unfolding Does step
  cmov_cc-Does cc f t e k m s = (_, rw (ap (holds cc) (known m f s e) ∙ k) refl, cases t)
    where
      cases :
          (t : Bool)
          → Shows base
              (record v { eax = if t then v.edx else v.eax })
              (if t then put (reg 0) (get (reg 2) m) m else m)
      cases true = put_known at_eax m _ _ s tt (get-place other base b at_edx v m s tt)
      cases false = s

  -- A product in EDX and EAX
  multiplied :
      (m : Machine) (p q : ℕ)
      → Shows base v m
      → p ≡ q
      → Shows base
          (record v { eax = q % 2 ^ 32; edx = q / 2 ^ 32; flags = none })
          (reflag other (multiply p m))
  unfolding multiply AreFlags
  multiplied m p q s e =
      subst
        (λ z.
          Shows base (record v { eax = z % 2 ^ 32; edx = z / 2 ^ 32; flags = none })
            (reflag other (multiply p m)))
        e
        (record {
          size = s.size;
          in_ecx = s.in_ecx;
          cells = s.cells;
          in_eax = refl;
          in_edx = refl;
          on_stack = s.on_stack;
          known_flags = tt;
        })

  pub mul-Does :
      (p : Place)
      → IsPlace p
      → (let x = v.eax * value p v in
          Does other base b v
            (group3 4 (operand_of p))
            (record v { eax = x % 2 ^ 32; edx = x / 2 ^ 32; flags = none }))
  unfolding Does step group3_step
  mul-Does p h m s =
      (_, refl, multiplied m _ _ s (ap₂ (λ x y. x * y) s.in_eax (get-place other base b p v m s h)))

  pub imul-Does :
      (p : Place)
      → IsPlace p
      → (let x = signed_product v.eax (value p v) in
          Does other base b v
            (group3 5 (operand_of p))
            (record v { eax = x % 2 ^ 32; edx = x / 2 ^ 32; flags = none }))
  unfolding Does step group3_step
  imul-Does p h m s =
      (_, refl, multiplied m _ _ s (ap₂ signed_product s.in_eax (get-place other base b p v m s h)))

  -- A quotient and a remainder in EAX and EDX
  in_pair :
      (m : Machine) (q r : ℕ)
      → Shows base v m
      → Shows base (record v { eax = q; edx = r; flags = none }) (reflag other (put_wide q r m))
  unfolding AreFlags put update
  in_pair m q r s = record {
    size = s.size;
    in_ecx = s.in_ecx;
    cells = s.cells;
    in_eax = refl;
    in_edx = refl;
    on_stack = s.on_stack;
    known_flags = tt;
  }

  pub div-Does :
      (p : Place) (y : ℕ)
      → IsPlace p
      → v.edx ≡ 0
      → v.eax < 2 ^ 32
      → value p v ≡ y
      → (y == 0) ≡ false
      → Does other base b v
          (group3 6 (operand_of p))
          (record v { eax = v.eax / y; edx = v.eax % y; flags = none })
  unfolding Does step group3_step divide
  div-Does p y h z lt e ne m s =
      let d = get-place other base b p v m s h ∙ e in
      let w : wide m ≡ v.eax = ap₂ (λ x y. x * 2 ^ 32 + y) (s.in_edx ∙ z) s.in_eax ∙ omega arith in
      let q : ltb (v.eax / y) (2 ^ 32) ≡ true = ground (arith, div-le_self v.eax y) in
      (_, rw (d, w, ne, q) refl, in_pair m (v.eax / y) (v.eax % y) s)

  pub idiv-Does :
      (p : Place) (y : ℕ)
      → IsPlace p
      → v.edx ≡ (if is_neg32 v.eax then 0xffff_ffff else 0)
      → value p v ≡ y
      → bad_division v.eax y ≡ false
      → Does other base b v
          (group3 7 (operand_of p))
          (record v { eax = div32 v.eax y; edx = rem32 v.eax y; flags = none })
  unfolding Does step group3_step divide_signed
  idiv-Does p y h z e ne m s =
      let d = get-place other base b p v m s h ∙ e in
      (
        _,
        rw (d, s.in_eax, ne, s.in_edx, z, ==-self) refl,
        in_pair m (div32 v.eax y) (rem32 v.eax y) s,
      )
