-- ===== src/Emulation/BlockMap/Linked.antt =====
-- What the linking of a map of blocks keeps, and what it leaves open.
use ji_tboy.Base.{
  ℕ, ◌≡◌, refl, sym, arith, Bool, true, false, ◌&&◌, ◌⊎◌, inl, inr, List, [], ◌∷◌, All, Option,
  Option-cases, none, some, if◌then◌else◌, ok, Holds, Holds-if, Holds-map, Holds-bind,
}
use mathlib.Core.Path.{subst}
use ji_tboy.VectorBuffer.{copy}
use ji_tboy.X86.Utils.{negate_cond}
use ji_tboy.X86.Assembler.{Assembler}
use ji_tboy.Emulation.CompiledBlock.{CompiledBlock, UnconditionalJump, ConditionalJump}
use ji_tboy.Emulation.JumpResolver.{
  code_of, link_unconditional, resolve_jump, link_conditional, resolve_cond_jump, resolve_list,
  resolve_cond_list, resolve_jumps, is_unlinked, is_null, link_partly,
}
use ji_tboy.Emulation.BlockMap.{Blocks}

-- A link that is set leads to the code of the block for its address.
unfoldable pub Leads : Blocks → Option ℕ → ℕ → Type 0
Leads blocks none addr = Unit
Leads blocks (some dst) addr = code_of (blocks addr) ≡ some dst

unfoldable pub IsCondLinked : Blocks → ConditionalJump → Type 0
unfolding Leads
IsCondLinked blocks j =
    Leads blocks j.dst_true_x86 j.dst_true_mips × Leads blocks j.dst_false_x86 j.dst_false_mips

-- Every link of the block that is set leads to the code of its target's block.
unfoldable pub IsLinked : Blocks → CompiledBlock → Type 0
unfolding IsCondLinked
IsLinked blocks b =
    All (λ j. Leads blocks j.dst_x86 j.dst_mips) b.unresolved_jumps
    × All (IsCondLinked blocks) b.unresolved_cond_jumps

unfoldable pub AreLinked : Blocks → Type 0
AreLinked blocks = (a : ℕ) (b : CompiledBlock) → blocks a ≡ some b → IsLinked blocks b

-- The blocks of the first are in the second, with their code where it was.
unfoldable pub Keeps : Blocks → Blocks → Type 0
Keeps blocks blocks' = (a dst : ℕ) → code_of (blocks a) ≡ some dst → code_of (blocks' a) ≡ some dst

Leads-Keeps :
    (blocks blocks' : Blocks) (k : Keeps blocks blocks') (o : Option ℕ) (a : ℕ)
    → Leads blocks o a
    → Leads blocks' o a
unfolding Leads Keeps
Leads-Keeps blocks blocks' k none a h = tt
Leads-Keeps blocks blocks' k (some dst) a h = k a dst h

pub All-map {ℓ κ μ} :
    {A : Type ℓ} (P : A → Type κ) (Q : A → Type μ)
    → ((a : A) → P a → Q a)
    → (xs : List A) → All P xs
    → All Q xs
All-map P Q f [] h = tt
All-map P Q f (x ∷ xs) h = (f x h.0, All-map P Q f xs h.1)

pub IsLinked-Keeps :
    (blocks blocks' : Blocks) (k : Keeps blocks blocks') (b : CompiledBlock)
    → IsLinked blocks b
    → IsLinked blocks' b
unfolding IsLinked IsCondLinked
IsLinked-Keeps blocks blocks' k b h = (
  All-map _ _ (λ j. Leads-Keeps blocks blocks' k j.dst_x86 j.dst_mips) b.unresolved_jumps h.0,
  All-map _ _
      (λ j v. (
        Leads-Keeps blocks blocks' k j.dst_true_x86 j.dst_true_mips v.0,
        Leads-Keeps blocks blocks' k j.dst_false_x86 j.dst_false_mips v.1,
      ))
      b.unresolved_cond_jumps h.1,
)

-- A jump stays open only where its target has no block.
unfoldable pub IsOpen : Blocks → UnconditionalJump → Type 0
IsOpen blocks j = code_of (blocks j.dst_mips) ≡ none

unfoldable pub IsCondOpen : Blocks → ConditionalJump → Type 0
IsCondOpen blocks j =
    (code_of (blocks j.dst_true_mips) ≡ none) ⊎ (code_of (blocks j.dst_false_mips) ≡ none)

both_null : (a b : Option ℕ) → (is_null a && is_null b) ≡ true → (a ≡ none) × (b ≡ none)
both_null none none u = (refl, refl)
both_null none (some b) u = absurd (ground arith)
both_null (some a) b u = absurd (ground arith)

unlinked_lem :
    (j : ConditionalJump)
    → is_unlinked j ≡ true
    → (j.dst_true_x86 ≡ none) × (j.dst_false_x86 ≡ none)
unlinked_lem j u = both_null j.dst_true_x86 j.dst_false_x86 u

module _ (blocks : Blocks) where
  -- What a jump is when it stays in its list
  abbrev Rests : Bool × ConditionalJump × (ℕ → ℕ) → Type 0
  Rests (resolved, j, memory) =
      (resolved ≡ true) ⊎ ((resolved ≡ false) × IsCondLinked blocks j × IsCondOpen blocks j)

  link_conditional-Rests :
      (j : ConditionalJump) (memory : ℕ → ℕ) (t f : Option ℕ)
      → code_of (blocks j.dst_true_mips) ≡ t
      → code_of (blocks j.dst_false_mips) ≡ f
      → IsCondLinked blocks j
      → Holds Rests (link_conditional blocks j memory t f)
  unfolding link_conditional IsCondLinked IsCondOpen Leads
  link_conditional-Rests j memory none none e g h = inr (refl, h, inl e)
  link_conditional-Rests j memory (some d) none e g h =
      Holds-if Rests (is_unlinked j) _ _
        (λ u.
          let v : IsCondLinked blocks (record j { dst_true_x86 = some d }) =
            (e, subst (λ o. Leads blocks o j.dst_false_mips) (sym (unlinked_lem j u).1) tt) in
          Holds-map Rests (link_partly j.cond j.src_x86 d j.dst_false_mips)
            (λ (a : Assembler).
              ok (false, record j { dst_true_x86 = some d }, copy a.buffer j.src_x86 memory))
            (λ a. inr (refl, v, inr g)))
        (λ u. inr (refl, h, inr g))
  link_conditional-Rests j memory none (some d) e e' h =
      Holds-if Rests (is_unlinked j) _ _
        (λ u.
          let v : IsCondLinked blocks (record j { dst_false_x86 = some d }) =
            (subst (λ o. Leads blocks o j.dst_true_mips) (sym (unlinked_lem j u).0) tt, e') in
          Holds-map Rests (negate_cond j.cond) _ (λ c.
            Holds-map Rests (link_partly c j.src_x86 d j.dst_true_mips)
              (λ (a : Assembler).
                ok (false, record j { dst_false_x86 = some d }, copy a.buffer j.src_x86 memory))
              (λ a. inr (refl, v, inl e))))
        (λ u. inr (refl, h, inl e))
  link_conditional-Rests j memory (some t) (some f) e g h = inl refl

  kept : UnconditionalJump → List UnconditionalJump → (ℕ → ℕ) → List UnconditionalJump
  unfolding resolve_jump
  kept j js memory =
      let (resolved, j', memory') = resolve_jump blocks j memory in if resolved then js else j' ∷ js

  resolve_jump-IsOpen :
      (j : UnconditionalJump) (js : List UnconditionalJump) (memory : ℕ → ℕ)
      → Leads blocks j.dst_x86 j.dst_mips
      → All (λ j. Leads blocks j.dst_x86 j.dst_mips) js × All (IsOpen blocks) js
      → All (λ j. Leads blocks j.dst_x86 j.dst_mips) (kept j js memory)
        × All (IsOpen blocks) (kept j js memory)
  unfolding kept resolve_jump link_unconditional IsOpen
  resolve_jump-IsOpen j js memory h (l, o) = elim (Option-cases (code_of (blocks j.dst_mips))) [
    | inl e ↦ rw e ((h, l), (e, o))
    | inr (d, e) ↦ rw e (l, o)
  ]

  resolve_list-IsOpen :
      (js : List UnconditionalJump) (memory : ℕ → ℕ)
      → All (λ j. Leads blocks j.dst_x86 j.dst_mips) js
      → All (λ j. Leads blocks j.dst_x86 j.dst_mips) (resolve_list blocks js memory).0
        × All (IsOpen blocks) (resolve_list blocks js memory).0
  unfolding resolve_list kept
  resolve_list-IsOpen [] memory h = (tt, tt)
  resolve_list-IsOpen (j ∷ js) memory h =
      resolve_jump-IsOpen j (resolve_list blocks js memory).0 (resolve_list blocks js memory).1 h.0
        (resolve_list-IsOpen js memory h.1)

  abbrev AreCondRests : List ConditionalJump × (ℕ → ℕ) → Type 0
  AreCondRests (js, memory) = All (IsCondLinked blocks) js × All (IsCondOpen blocks) js

  cond_step :
      (resolved : Bool) (j : ConditionalJump) (js : List ConditionalJump) (memory : ℕ → ℕ)
      → Rests (resolved, j, memory)
      → All (IsCondLinked blocks) js × All (IsCondOpen blocks) js
      → AreCondRests (if resolved then js else j ∷ js, memory)
  cond_step resolved j js memory (inl e) (l, o) = rw e (l, o)
  cond_step resolved j js memory (inr (e, v, w)) (l, o) = rw e ((v, l), (w, o))

  resolve_cond_list-AreCondRests :
      (js : List ConditionalJump) (memory : ℕ → ℕ)
      → All (IsCondLinked blocks) js
      → Holds AreCondRests (resolve_cond_list blocks js memory)
  unfolding resolve_cond_list resolve_cond_jump
  resolve_cond_list-AreCondRests [] memory h = (tt, tt)
  resolve_cond_list-AreCondRests (j ∷ js) memory h =
      Holds-bind AreCondRests AreCondRests (resolve_cond_list blocks js memory) _
        (resolve_cond_list-AreCondRests js memory h.1)
        (λ (js', memory') k.
          Holds-bind Rests AreCondRests _ _ (link_conditional-Rests j memory' _ _ refl refl h.0)
            (λ (resolved, j', memory'') r. cond_step resolved j' js' memory'' r k))

  -- What `resolve_jumps` makes of a block
  pub record IsResolved (b b' : CompiledBlock) : Type 0 where
    pub same_code : b'.code ≡ b.code
    pub linked : IsLinked blocks b'
    pub plain_open : All (IsOpen blocks) b'.unresolved_jumps
    pub cond_open : All (IsCondOpen blocks) b'.unresolved_cond_jumps

  pub resolve_jumps-IsResolved :
      (b : CompiledBlock) (memory : ℕ → ℕ)
      → IsLinked blocks b
      → Holds (λ (b', memory'). IsResolved b b') (resolve_jumps blocks b memory)
  unfolding resolve_jumps IsLinked
  resolve_jumps-IsResolved b memory (h, k) =
      let (l, o) = resolve_list-IsOpen b.unresolved_jumps memory h in
      Holds-bind AreCondRests _ _ _
        (resolve_cond_list-AreCondRests b.unresolved_cond_jumps
          (resolve_list blocks b.unresolved_jumps memory).1 k)
        (λ (js, memory') (m, c). record {
          same_code = refl;
          linked = (l, m);
          plain_open = o;
          cond_open = c;
        })
