-- ===== src/Mips/Classify.antt =====
-- What an instruction reads and writes: src/mips/utils.cpp.
use ji_tboy.Base.{Bool, true, false, ◌||◌, ◌==◌}
use ji_tboy.Mips.Isa.{
  OpcodeR, OpcodeI, OpcodeJ, Instruction, r_type, i_type, j_type, InstructionR, InstructionI,
  Register, zero_reg, ra,
}

unfoldable pub branches_r : OpcodeR → Bool
branches_r OpcodeR.jr = true
branches_r OpcodeR.jalr = true
branches_r _ = false

unfoldable pub branches_i : OpcodeI → Bool
branches_i OpcodeI.beq = true
branches_i OpcodeI.bne = true
branches_i OpcodeI.bgtz = true
branches_i OpcodeI.blez = true
branches_i OpcodeI.bgez = true
branches_i OpcodeI.bgezal = true
branches_i OpcodeI.bltz = true
branches_i OpcodeI.bltzal = true
branches_i _ = false

unfoldable pub is_branch_instr : Instruction → Bool
unfolding branches_r branches_i
is_branch_instr (r_type x) = branches_r x.op
is_branch_instr (i_type x) = branches_i x.op
is_branch_instr (j_type _) = true

unfoldable pub writes_r : OpcodeR → Register → InstructionR → Bool
writes_r OpcodeR.add reg x = reg == x.rd
writes_r OpcodeR.addu reg x = reg == x.rd
writes_r OpcodeR.sub reg x = reg == x.rd
writes_r OpcodeR.subu reg x = reg == x.rd
writes_r OpcodeR.and reg x = reg == x.rd
writes_r OpcodeR.or reg x = reg == x.rd
writes_r OpcodeR.nor reg x = reg == x.rd
writes_r OpcodeR.xor reg x = reg == x.rd
writes_r OpcodeR.jalr reg x = reg == x.rd
writes_r OpcodeR.mfhi reg x = reg == x.rd
writes_r OpcodeR.mflo reg x = reg == x.rd
writes_r OpcodeR.slt reg x = reg == x.rd
writes_r OpcodeR.sltu reg x = reg == x.rd
writes_r OpcodeR.sll reg x = reg == x.rd
writes_r OpcodeR.sllv reg x = reg == x.rd
writes_r OpcodeR.sra reg x = reg == x.rd
writes_r OpcodeR.srav reg x = reg == x.rd
writes_r OpcodeR.srl reg x = reg == x.rd
writes_r OpcodeR.srlv reg x = reg == x.rd
writes_r _ reg x = false

unfoldable pub writes_i : OpcodeI → Register → InstructionI → Bool
writes_i OpcodeI.addi reg x = reg == x.rt
writes_i OpcodeI.addiu reg x = reg == x.rt
writes_i OpcodeI.andi reg x = reg == x.rt
writes_i OpcodeI.ori reg x = reg == x.rt
writes_i OpcodeI.xori reg x = reg == x.rt
writes_i OpcodeI.slti reg x = reg == x.rt
writes_i OpcodeI.sltiu reg x = reg == x.rt
writes_i OpcodeI.lui reg x = reg == x.rt
writes_i OpcodeI.lw reg x = reg == x.rt
writes_i OpcodeI.lb reg x = reg == x.rt
writes_i OpcodeI.lbu reg x = reg == x.rt
writes_i OpcodeI.lh reg x = reg == x.rt
writes_i OpcodeI.lhu reg x = reg == x.rt
writes_i OpcodeI.sw reg x = reg == x.rt
writes_i OpcodeI.sb reg x = reg == x.rt
writes_i OpcodeI.sh reg x = reg == x.rt
writes_i OpcodeI.lwl reg x = reg == x.rt
writes_i OpcodeI.lwr reg x = reg == x.rt
writes_i OpcodeI.bgezal reg x = reg == ra
writes_i OpcodeI.bltzal reg x = reg == ra
writes_i _ reg x = false

unfoldable pub writes_j : OpcodeJ → Register → Bool
writes_j OpcodeJ.jal reg = reg == ra
writes_j _ reg = false

unfoldable pub writes_reg : Instruction → Register → Bool
unfolding writes_r writes_i writes_j
writes_reg (r_type x) reg = writes_r x.op reg x
writes_reg (i_type x) reg = writes_i x.op reg x
writes_reg (j_type x) reg = writes_j x.op reg

unfoldable pub is_nop : Instruction → Bool
unfolding writes_reg
is_nop instr = writes_reg instr zero_reg

reads_r : OpcodeR → Register → InstructionR → Bool
reads_r OpcodeR.add reg x = reg == x.rt || reg == x.rs
reads_r OpcodeR.addu reg x = reg == x.rt || reg == x.rs
reads_r OpcodeR.sub reg x = reg == x.rt || reg == x.rs
reads_r OpcodeR.subu reg x = reg == x.rt || reg == x.rs
reads_r OpcodeR.and reg x = reg == x.rt || reg == x.rs
reads_r OpcodeR.or reg x = reg == x.rt || reg == x.rs
reads_r OpcodeR.nor reg x = reg == x.rt || reg == x.rs
reads_r OpcodeR.xor reg x = reg == x.rt || reg == x.rs
reads_r OpcodeR.mult reg x = reg == x.rt || reg == x.rs
reads_r OpcodeR.multu reg x = reg == x.rt || reg == x.rs
reads_r OpcodeR.div reg x = reg == x.rt || reg == x.rs
reads_r OpcodeR.divu reg x = reg == x.rt || reg == x.rs
reads_r OpcodeR.slt reg x = reg == x.rt || reg == x.rs
reads_r OpcodeR.sltu reg x = reg == x.rt || reg == x.rs
reads_r OpcodeR.sllv reg x = reg == x.rt || reg == x.rs
reads_r OpcodeR.srav reg x = reg == x.rt || reg == x.rs
reads_r OpcodeR.srlv reg x = reg == x.rt || reg == x.rs
reads_r OpcodeR.sll reg x = reg == x.rt
reads_r OpcodeR.sra reg x = reg == x.rt
reads_r OpcodeR.srl reg x = reg == x.rt
reads_r OpcodeR.mthi reg x = reg == x.rs
reads_r OpcodeR.mtlo reg x = reg == x.rs
reads_r OpcodeR.jr reg x = reg == x.rs
reads_r OpcodeR.jalr reg x = reg == x.rs
reads_r _ reg x = false

reads_i : OpcodeI → Register → InstructionI → Bool
reads_i OpcodeI.addi reg x = reg == x.rs
reads_i OpcodeI.addiu reg x = reg == x.rs
reads_i OpcodeI.andi reg x = reg == x.rs
reads_i OpcodeI.ori reg x = reg == x.rs
reads_i OpcodeI.xori reg x = reg == x.rs
reads_i OpcodeI.slti reg x = reg == x.rs
reads_i OpcodeI.sltiu reg x = reg == x.rs
reads_i OpcodeI.lw reg x = reg == x.rs
reads_i OpcodeI.lb reg x = reg == x.rs
reads_i OpcodeI.lbu reg x = reg == x.rs
reads_i OpcodeI.lh reg x = reg == x.rs
reads_i OpcodeI.lhu reg x = reg == x.rs
reads_i OpcodeI.sw reg x = reg == x.rs
reads_i OpcodeI.sb reg x = reg == x.rs
reads_i OpcodeI.sh reg x = reg == x.rs
reads_i OpcodeI.lwl reg x = reg == x.rs
reads_i OpcodeI.lwr reg x = reg == x.rs
reads_i OpcodeI.bgtz reg x = reg == x.rs
reads_i OpcodeI.blez reg x = reg == x.rs
reads_i OpcodeI.bgez reg x = reg == x.rs
reads_i OpcodeI.bgezal reg x = reg == x.rs
reads_i OpcodeI.bltz reg x = reg == x.rs
reads_i OpcodeI.bltzal reg x = reg == x.rs
reads_i OpcodeI.beq reg x = reg == x.rs || reg == x.rt
reads_i OpcodeI.bne reg x = reg == x.rs || reg == x.rt
reads_i _ reg x = false

unfoldable pub reads_reg : Instruction → Register → Bool
unfolding reads_r reads_i
reads_reg (r_type x) reg = reads_r x.op reg x
reads_reg (i_type x) reg = reads_i x.op reg x
reads_reg (j_type _) reg = false

unfoldable pub sign_extends_imm : OpcodeI → Bool
sign_extends_imm OpcodeI.andi = false
sign_extends_imm OpcodeI.ori = false
sign_extends_imm OpcodeI.xori = false
sign_extends_imm _ = true
