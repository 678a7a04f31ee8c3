-- ===== src/Mips/RegisterFile/Laws.antt =====
-- What reads see after writes, and that every operation keeps a register file valid:
-- src/mips/register_file.cpp.
use ji_tboy.Base.{
  ℕ, ◌<◌, ◌≡◌, ◌≢◌, refl, ◌∙◌, arith, get_or, length, ◌==◌, if◌then◌else◌, Bool-cases, inl, inr,
  IsU32, All, length-set, get_or-set_self, get_or-set_ne, All-get_or, All-set, set-set, set_comm,
  ap, ◌&&◌, not,
}
use ji_tboy.Mips.Isa.{Register}
use ji_tboy.Mips.RegisterFile.{RegisterFile, read, assign, write, initial}

-- 34 words, and `$zero` holds 0.
pub record IsRegisters (f : RegisterFile) : Type 0 where
  pub size : length f.regs ≡ 34
  pub words : All IsU32 f.regs
  pub zero_holds : get_or f.regs 0 0 ≡ 0

pub initial-IsRegisters : IsRegisters initial
initial-IsRegisters = record { size = refl; words = omega arith; zero_holds = refl }

-- Assignments to one register and to two
pub assign-assign : (f : RegisterFile) (r a b : ℕ) → assign (assign f r a) r b ≡ assign f r b
unfolding assign
assign-assign f r a b = ap (λ l. record { regs = l }) (set-set f.regs r a b)

pub assign_comm :
    (f : RegisterFile) (r q a b : ℕ) → r ≢ q → assign (assign f r a) q b ≡ assign (assign f q b) r a
unfolding assign
assign_comm f r q a b ne = ap (λ l. record { regs = l }) (set_comm f.regs r q a b ne)

pub read-assign_self :
    (f : RegisterFile) (r a : ℕ) → length f.regs ≡ 34 → r < 34 → read (assign f r a) r ≡ a
unfolding read assign
read-assign_self f r a size h = get_or-set_self f.regs r a 0 (omega arith)

pub read-assign_ne : (f : RegisterFile) (r q a : ℕ) → r ≢ q → read (assign f r a) q ≡ read f q
unfolding read assign
read-assign_ne f r q a ne = get_or-set_ne f.regs r q a 0 ne

module _ (f : RegisterFile) (v : IsRegisters f) where
  pub read-lt : (reg : Register) → IsU32 (read f reg)
  unfolding read
  read-lt reg = All-get_or IsU32 f.regs reg 0 v.words (omega arith)

  pub read_zero : read f 0 ≡ 0
  unfolding read
  read_zero = v.zero_holds

  pub assign-IsRegisters :
      (reg : Register) (value : ℕ) → reg ≢ 0 → IsU32 value → IsRegisters (assign f reg value)
  unfolding assign
  assign-IsRegisters reg value ne h = record {
    size = length-set f.regs reg value ∙ v.size;
    words = All-set IsU32 f.regs reg value v.words h;
    zero_holds = get_or-set_ne f.regs reg 0 value 0 ne ∙ v.zero_holds;
  }

  pub read-assign :
      (reg : Register) (value : ℕ) (other : Register)
      → reg < 34
      → read (assign f reg value) other ≡ (if reg == other then value else read f other)
  unfolding read assign
  read-assign reg value other h =
      ground
        (arith, v.size, get_or-set_self f.regs reg value 0, get_or-set_ne f.regs reg other value 0)

  pub write-IsRegisters :
      (reg : Register) (value : ℕ) → IsU32 value → IsRegisters (write f reg value)
  unfolding write
  write-IsRegisters reg value h = elim (Bool-cases (reg == 0)) [
    | inl e ↦ rw e v
    | inr e ↦ rw e (unfold assign in assign-IsRegisters reg value (ground arith) h)
  ]

  -- In a valid register file, a write to one of its registers shows at that register and nowhere
  -- else, and a write to `$zero` shows nowhere.
  pub read-write :
      (reg : Register) (value : ℕ) (other : Register)
      → reg < 34
      → read (write f reg value) other
        ≡ (if not (reg == 0) && reg == other then value else read f other)
  unfolding read write
  read-write reg value other h =
      ground
        (arith, v.size, get_or-set_self f.regs reg value 0, get_or-set_ne f.regs reg other value 0)
