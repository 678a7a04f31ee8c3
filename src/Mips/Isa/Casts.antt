-- ===== src/Mips/Isa/Casts.antt =====
-- The numbers of the enumerators (src/mips/mips.hpp) and both directions of `static_cast`.
use ji_tboy.Base.{ℕ, List, [], ◌∷◌, ◌≡◌, refl, arith, ◌==◌, if◌then◌else◌, All}
use ji_tboy.Mips.Isa.{OpcodeR, OpcodeI, OpcodeJ}

-- `static_cast<Enum>(n)`: the enumerator with this number, if the enumeration names it.
cast {ℓ} : {E : Type ℓ} → (ℕ → E) → List (ℕ × E) → ℕ → E
cast unnamed [] n = unnamed n
cast unnamed ((k, e) ∷ table) n = if n == k then e else cast unnamed table n

code-cast_in {ℓ} :
    {E : Type ℓ} (code : E → ℕ) (unnamed : ℕ → E) (table : List (ℕ × E)) (n : ℕ)
    → code (unnamed n) ≡ n
    → All (λ p. code p.1 ≡ p.0) table
    → code (cast unnamed table n) ≡ n
unfolding cast
code-cast_in code unnamed [] n u h = u
code-cast_in code unnamed ((k, e) ∷ table) n u h = ground (arith, code-cast_in code unnamed table n)

unfoldable pub code_r : OpcodeR → ℕ
code_r OpcodeR.add = 0b100000
code_r OpcodeR.addu = 0b100001
code_r OpcodeR.sub = 0b100010
code_r OpcodeR.subu = 0b100011
code_r OpcodeR.and = 0b100100
code_r OpcodeR.or = 0b100101
code_r OpcodeR.nor = 0b100111
code_r OpcodeR.xor = 0b100110
code_r OpcodeR.jr = 0b001000
code_r OpcodeR.jalr = 0b001001
code_r OpcodeR.mult = 0b011000
code_r OpcodeR.multu = 0b011001
code_r OpcodeR.div = 0b011010
code_r OpcodeR.divu = 0b011011
code_r OpcodeR.mfhi = 0b010000
code_r OpcodeR.mflo = 0b010010
code_r OpcodeR.mthi = 0b010001
code_r OpcodeR.mtlo = 0b010011
code_r OpcodeR.slt = 0b101010
code_r OpcodeR.sltu = 0b101011
code_r OpcodeR.sll = 0b000000
code_r OpcodeR.sllv = 0b000100
code_r OpcodeR.sra = 0b000011
code_r OpcodeR.srav = 0b000111
code_r OpcodeR.srl = 0b000010
code_r OpcodeR.srlv = 0b000110
code_r (OpcodeR.unnamed n) = n

abbrev pub table_r : List (ℕ × OpcodeR)
table_r =
    (0b100000, OpcodeR.add)
    ∷ (0b100001, OpcodeR.addu)
    ∷ (0b100010, OpcodeR.sub)
    ∷ (0b100011, OpcodeR.subu)
    ∷ (0b100100, OpcodeR.and)
    ∷ (0b100101, OpcodeR.or)
    ∷ (0b100111, OpcodeR.nor)
    ∷ (0b100110, OpcodeR.xor)
    ∷ (0b001000, OpcodeR.jr)
    ∷ (0b001001, OpcodeR.jalr)
    ∷ (0b011000, OpcodeR.mult)
    ∷ (0b011001, OpcodeR.multu)
    ∷ (0b011010, OpcodeR.div)
    ∷ (0b011011, OpcodeR.divu)
    ∷ (0b010000, OpcodeR.mfhi)
    ∷ (0b010010, OpcodeR.mflo)
    ∷ (0b010001, OpcodeR.mthi)
    ∷ (0b010011, OpcodeR.mtlo)
    ∷ (0b101010, OpcodeR.slt)
    ∷ (0b101011, OpcodeR.sltu)
    ∷ (0b000000, OpcodeR.sll)
    ∷ (0b000100, OpcodeR.sllv)
    ∷ (0b000011, OpcodeR.sra)
    ∷ (0b000111, OpcodeR.srav)
    ∷ (0b000010, OpcodeR.srl)
    ∷ (0b000110, OpcodeR.srlv)
    ∷ []

unfoldable pub cast_r : ℕ → OpcodeR
unfolding cast
cast_r n = cast OpcodeR.unnamed table_r n

pub code_r-cast_r : (n : ℕ) → code_r (cast_r n) ≡ n
unfolding code_r cast_r
code_r-cast_r n = code-cast_in code_r OpcodeR.unnamed table_r n refl (omega arith)

-- An enumerator of the source, not a stray number.
abbrev pub IsNamedR : OpcodeR → Type 0
IsNamedR (OpcodeR.unnamed n) = ⊥
IsNamedR _ = Unit

pub cast_r-code_r : (op : OpcodeR) → IsNamedR op → cast_r (code_r op) ≡ op
unfolding code_r cast_r
cast_r-code_r (OpcodeR.unnamed n) h = absurd h
cast_r-code_r _ h = refl

unfoldable pub code_i : OpcodeI → ℕ
code_i OpcodeI.addi = 0b001000
code_i OpcodeI.addiu = 0b001001
code_i OpcodeI.andi = 0b001100
code_i OpcodeI.ori = 0b001101
code_i OpcodeI.xori = 0b001110
code_i OpcodeI.slti = 0b001010
code_i OpcodeI.sltiu = 0b001011
code_i OpcodeI.lui = 0b001111
code_i OpcodeI.lw = 0b100011
code_i OpcodeI.lb = 0b100000
code_i OpcodeI.lbu = 0b100100
code_i OpcodeI.lh = 0b100001
code_i OpcodeI.lhu = 0b100101
code_i OpcodeI.sw = 0b101011
code_i OpcodeI.sb = 0b101000
code_i OpcodeI.sh = 0b101001
code_i OpcodeI.beq = 0b000100
code_i OpcodeI.bgtz = 0b000111
code_i OpcodeI.blez = 0b000110
code_i OpcodeI.bne = 0b000101
code_i OpcodeI.lwl = 0b100010
code_i OpcodeI.lwr = 0b100110
code_i OpcodeI.bgez = 0b000001
code_i OpcodeI.bgezal = 0b010001
code_i OpcodeI.bltz = 0b000000
code_i OpcodeI.bltzal = 0b010000
code_i (OpcodeI.unnamed n) = n

abbrev pub table_i : List (ℕ × OpcodeI)
table_i =
    (0b001000, OpcodeI.addi)
    ∷ (0b001001, OpcodeI.addiu)
    ∷ (0b001100, OpcodeI.andi)
    ∷ (0b001101, OpcodeI.ori)
    ∷ (0b001110, OpcodeI.xori)
    ∷ (0b001010, OpcodeI.slti)
    ∷ (0b001011, OpcodeI.sltiu)
    ∷ (0b001111, OpcodeI.lui)
    ∷ (0b100011, OpcodeI.lw)
    ∷ (0b100000, OpcodeI.lb)
    ∷ (0b100100, OpcodeI.lbu)
    ∷ (0b100001, OpcodeI.lh)
    ∷ (0b100101, OpcodeI.lhu)
    ∷ (0b101011, OpcodeI.sw)
    ∷ (0b101000, OpcodeI.sb)
    ∷ (0b101001, OpcodeI.sh)
    ∷ (0b000100, OpcodeI.beq)
    ∷ (0b000111, OpcodeI.bgtz)
    ∷ (0b000110, OpcodeI.blez)
    ∷ (0b000101, OpcodeI.bne)
    ∷ (0b100010, OpcodeI.lwl)
    ∷ (0b100110, OpcodeI.lwr)
    ∷ (0b000001, OpcodeI.bgez)
    ∷ (0b010001, OpcodeI.bgezal)
    ∷ (0b000000, OpcodeI.bltz)
    ∷ (0b010000, OpcodeI.bltzal)
    ∷ []

unfoldable pub cast_i : ℕ → OpcodeI
unfolding cast
cast_i n = cast OpcodeI.unnamed table_i n

pub code_i-cast_i : (n : ℕ) → code_i (cast_i n) ≡ n
unfolding code_i cast_i
code_i-cast_i n = code-cast_in code_i OpcodeI.unnamed table_i n refl (omega arith)

-- An enumerator of the source, not a stray number.
abbrev pub IsNamedI : OpcodeI → Type 0
IsNamedI (OpcodeI.unnamed n) = ⊥
IsNamedI _ = Unit

pub cast_i-code_i : (op : OpcodeI) → IsNamedI op → cast_i (code_i op) ≡ op
unfolding code_i cast_i
cast_i-code_i (OpcodeI.unnamed n) h = absurd h
cast_i-code_i _ h = refl

unfoldable pub code_j : OpcodeJ → ℕ
code_j OpcodeJ.j = 0b000010
code_j OpcodeJ.jal = 0b000011
code_j (OpcodeJ.unnamed n) = n

abbrev pub table_j : List (ℕ × OpcodeJ)
table_j = (0b000010, OpcodeJ.j) ∷ (0b000011, OpcodeJ.jal) ∷ []

unfoldable pub cast_j : ℕ → OpcodeJ
unfolding cast
cast_j n = cast OpcodeJ.unnamed table_j n

pub code_j-cast_j : (n : ℕ) → code_j (cast_j n) ≡ n
unfolding code_j cast_j
code_j-cast_j n = code-cast_in code_j OpcodeJ.unnamed table_j n refl (omega arith)

-- An enumerator of the source, not a stray number.
abbrev pub IsNamedJ : OpcodeJ → Type 0
IsNamedJ (OpcodeJ.unnamed n) = ⊥
IsNamedJ _ = Unit

pub cast_j-code_j : (op : OpcodeJ) → IsNamedJ op → cast_j (code_j op) ≡ op
unfolding code_j cast_j
cast_j-code_j (OpcodeJ.unnamed n) h = absurd h
cast_j-code_j _ h = refl
