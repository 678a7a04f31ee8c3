-- ===== src/Emulation/Compiler/Codes.antt =====
-- What the steps of src/emulation/compiler.cpp append to the code, as the processor reads it.
use ji_tboy.Base.{
  ℕ, ◌+◌, ◌≡◌, refl, sym, ◌∙◌, ap, arith, List, [], ◌∷◌, ◌++◌, length, length-append, Outcome, ok,
  ◌>>=◌,
}
use mathlib.Core.List.{append_assoc, append-nil}
use mathlib.Core.Path.{subst}
use ji_tboy.Mips.Isa.{Register as MipsRegister}
use ji_tboy.X86.Assembler.{Assembler}
use ji_tboy.X86.Processor.{Instr, Operand, mem}
use ji_tboy.X86.Processor.Decoder.{Encodes, done, more}
use ji_tboy.X86.Processor.Instructions.{Yields}
use ji_tboy.Emulation.Compiler.{Compiler, Step, emit, ◌⨟◌, skip}
use ji_tboy.Emulation.Compiler.Registers.{calc_reg_offset}

-- The code of `c'` is that of `c` and behind it these instructions; all else is the same.
pub record Produces (is : List Instr) (c c' : Compiler) : Type 0 where
  pub code : List ℕ
  pub appended : c'.assembler.buffer.buffer ≡ c.assembler.buffer.buffer ++ code
  pub encodes : Encodes is code
  pub counted : c'.assembler.instr_count ≡ c.assembler.instr_count + length is
  pub same_state : c'.state ≡ c.state
  pub same_linker : c'.linker ≡ c.linker
  pub same_allocator : c'.allocator ≡ c.allocator

-- From any compiler, the step succeeds and produces these instructions.
unfoldable pub Codes : List Instr → Step → Type 0
Codes is m = (c : Compiler) → (c' : Compiler) × (m c ≡ ok c') × Produces is c c'

Encodes-append :
    {is js : List Instr} {code rest : List ℕ}
    → Encodes is code
    → Encodes js rest
    → Encodes (is ++ js) (code ++ rest)
Encodes-append done e = e
Encodes-append {js = js} {rest = rest} (more {is = is} i code {rest = tail} d p) e =
    subst (Encodes (i ∷ (is ++ js))) (sym (append_assoc code tail rest))
      (more i code d (Encodes-append p e))

Produces-append :
    (is js : List Instr) (c d e : Compiler)
    → Produces is c d
    → Produces js d e
    → Produces (is ++ js) c e
Produces-append is js c d e p q = record {
  code = p.code ++ q.code;
  appended =
      q.appended
      ∙ ap (λ b. b ++ q.code) p.appended
      ∙ append_assoc c.assembler.buffer.buffer p.code q.code;
  encodes = Encodes-append p.encodes q.encodes;
  counted = omega (arith, p.counted, q.counted, length-append is js);
  same_state = q.same_state ∙ p.same_state;
  same_linker = q.same_linker ∙ p.same_linker;
  same_allocator = q.same_allocator ∙ p.same_allocator;
}

pub ⨟-Codes : (is js : List Instr) (f g : Step) → Codes is f → Codes js g → Codes (is ++ js) (f ⨟ g)
unfolding Codes ◌⨟◌
⨟-Codes is js f g k l c =
    let (d, e, p) = k c in
    let (d', e', q) = l d in (d', ap (λ m. m >>= g) e ∙ e', Produces-append is js c d d' p q)

pub skip-Codes : Codes [] skip
unfolding Codes skip
skip-Codes c = (
  c,
  refl,
  record {
    code = [];
    appended = sym (append-nil c.assembler.buffer.buffer);
    encodes = done;
    counted = omega arith;
    same_state = refl;
    same_linker = refl;
    same_allocator = refl;
  },
)

pub emit-Codes :
    (i : Instr) (f : Assembler → Outcome Assembler)
    → ((a : Assembler) → Yields i a (f a))
    → Codes (i ∷ []) (emit f)
unfolding Codes emit Yields
emit-Codes i f y c =
    let (code, a', e, em, d) = y c.assembler in
    (
      record c { assembler = a' },
      ap (λ m. m >>= λ a. ok (record c { assembler = a })) e,
      record {
        code = code ++ [];
        appended = em.appended ∙ ap (λ k. c.assembler.buffer.buffer ++ k) (sym (append-nil code));
        encodes = more i code d done;
        counted = em.counted;
        same_state = refl;
        same_linker = refl;
        same_allocator = refl;
      },
    )

-- The place of a guest register
abbrev pub guest : MipsRegister → Operand
guest r = mem 1 (calc_reg_offset r)
