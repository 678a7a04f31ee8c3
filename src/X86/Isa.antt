-- ===== src/X86/Isa.antt =====
-- The instruction set of the host: the enumerations of src/x86/x86.hpp. Where several names of an
-- enumeration share a value, C++ does not tell them apart; `Opcode`, `OpcodeExt`, `OpcodePrefix`
-- and `Register` are therefore their `uint8_t`, and `CondCode` has one constructor for each value.
use ji_tboy.Base.{ℕ}

abbrev pub Opcode : Type 0
Opcode = ℕ

abbrev pub op_add : Opcode
op_add = 0x00

abbrev pub op_adc : Opcode
op_adc = 0x10

abbrev pub op_sub : Opcode
op_sub = 0x29

abbrev pub op_mov : Opcode
op_mov = 0x88

abbrev pub op_inc : Opcode
op_inc = 0xfe

abbrev pub op_dec : Opcode
op_dec = 0xfe

abbrev pub op_neg : Opcode
op_neg = 0xf6

abbrev pub op_cmp : Opcode
op_cmp = 0x38

abbrev pub op_mul : Opcode
op_mul = 0xf6

abbrev pub op_imul : Opcode
op_imul = 0xf6

abbrev pub op_div : Opcode
op_div = 0xf6

abbrev pub op_idiv : Opcode
op_idiv = 0xf6

abbrev pub op_and : Opcode
op_and = 0x20

abbrev pub op_or : Opcode
op_or = 0x08

abbrev pub op_xor : Opcode
op_xor = 0x30

abbrev pub op_not : Opcode
op_not = 0xf6

abbrev pub op_push : Opcode
op_push = 0xff

abbrev pub op_pop : Opcode
op_pop = 0x8f

abbrev pub op_sal : Opcode
op_sal = 0xd2

abbrev pub op_sar : Opcode
op_sar = 0xd2

abbrev pub op_shl : Opcode
op_shl = 0xd2

abbrev pub op_shr : Opcode
op_shr = 0xd2

abbrev pub op_test : Opcode
op_test = 0x84

abbrev pub op_nop : Opcode
op_nop = 0x90

abbrev pub op_add_i : Opcode
op_add_i = 0x80

abbrev pub op_adc_i : Opcode
op_adc_i = 0x80

abbrev pub op_sub_i : Opcode
op_sub_i = 0x80

abbrev pub op_mov_i : Opcode
op_mov_i = 0xc6

abbrev pub op_and_i : Opcode
op_and_i = 0x80

abbrev pub op_or_i : Opcode
op_or_i = 0x80

abbrev pub op_xor_i : Opcode
op_xor_i = 0x80

abbrev pub op_cmp_i : Opcode
op_cmp_i = 0x80

abbrev pub op_sal_i : Opcode
op_sal_i = 0xc0

abbrev pub op_sar_i : Opcode
op_sar_i = 0xc0

abbrev pub op_shl_i : Opcode
op_shl_i = 0xc0

abbrev pub op_shr_i : Opcode
op_shr_i = 0xc0

abbrev pub op_add_i_eax : Opcode
op_add_i_eax = 0x50

abbrev pub op_ret : Opcode
op_ret = 0xc3

abbrev pub op_enter : Opcode
op_enter = 0xc8

abbrev pub op_leave : Opcode
op_leave = 0xc9

abbrev pub op_pushf : Opcode
op_pushf = 0x9c

abbrev pub op_popf : Opcode
op_popf = 0x9d

abbrev pub op_jmp_8 : Opcode
op_jmp_8 = 0xeb

abbrev pub op_jmp_32 : Opcode
op_jmp_32 = 0xe9

abbrev pub op_call : Opcode
op_call = 0xe8

abbrev pub op_cmov_cc : Opcode
op_cmov_cc = 0x40

abbrev pub op_set_cc : Opcode
op_set_cc = 0x90

abbrev pub op_jcc_8 : Opcode
op_jcc_8 = 0x70

abbrev pub op_jcc_32 : Opcode
op_jcc_32 = 0x80

abbrev pub OpcodeExt : Type 0
OpcodeExt = ℕ

abbrev pub ext_inc : OpcodeExt
ext_inc = 0

abbrev pub ext_dec : OpcodeExt
ext_dec = 1

abbrev pub ext_neg : OpcodeExt
ext_neg = 3

abbrev pub ext_not : OpcodeExt
ext_not = 2

abbrev pub ext_push : OpcodeExt
ext_push = 6

abbrev pub ext_pop : OpcodeExt
ext_pop = 0

abbrev pub ext_mul : OpcodeExt
ext_mul = 4

abbrev pub ext_imul : OpcodeExt
ext_imul = 5

abbrev pub ext_div : OpcodeExt
ext_div = 6

abbrev pub ext_idiv : OpcodeExt
ext_idiv = 7

abbrev pub ext_sal : OpcodeExt
ext_sal = 4

abbrev pub ext_sar : OpcodeExt
ext_sar = 7

abbrev pub ext_shl : OpcodeExt
ext_shl = 4

abbrev pub ext_shr : OpcodeExt
ext_shr = 5

abbrev pub ext_add_i : OpcodeExt
ext_add_i = 0

abbrev pub ext_adc_i : OpcodeExt
ext_adc_i = 2

abbrev pub ext_sub_i : OpcodeExt
ext_sub_i = 5

abbrev pub ext_mov_i : OpcodeExt
ext_mov_i = 0

abbrev pub ext_and_i : OpcodeExt
ext_and_i = 4

abbrev pub ext_or_i : OpcodeExt
ext_or_i = 1

abbrev pub ext_xor_i : OpcodeExt
ext_xor_i = 6

abbrev pub ext_cmp_i : OpcodeExt
ext_cmp_i = 7

abbrev pub ext_sal_i : OpcodeExt
ext_sal_i = 4

abbrev pub ext_sar_i : OpcodeExt
ext_sar_i = 7

abbrev pub ext_shl_i : OpcodeExt
ext_shl_i = 4

abbrev pub ext_shr_i : OpcodeExt
ext_shr_i = 5

abbrev pub OpcodePrefix : Type 0
OpcodePrefix = ℕ

abbrev pub prefix_size16 : OpcodePrefix
prefix_size16 = 0x66

abbrev pub prefix_size64 : OpcodePrefix
prefix_size64 = 0x48

abbrev pub prefix_lock : OpcodePrefix
prefix_lock = 0xf0

abbrev pub prefix_cmov_cc : OpcodePrefix
prefix_cmov_cc = 0x0f

abbrev pub prefix_set_cc : OpcodePrefix
prefix_set_cc = 0x0f

abbrev pub prefix_jcc_32 : OpcodePrefix
prefix_jcc_32 = 0x0f

pub data RegisterSize : Type 0 where
  reg8 : RegisterSize
  reg16 : RegisterSize
  reg32 : RegisterSize
  reg64 : RegisterSize

pub data RegisterMode : Type 0 where
  memory_disp0 : RegisterMode
  memory_disp1 : RegisterMode
  memory_disp4 : RegisterMode
  register : RegisterMode

abbrev pub mode_code : RegisterMode → ℕ
mode_code RegisterMode.memory_disp0 = 0b0000_0000
mode_code RegisterMode.memory_disp1 = 0b0100_0000
mode_code RegisterMode.memory_disp4 = 0b1000_0000
mode_code RegisterMode.register = 0b1100_0000

abbrev pub Register : Type 0
Register = ℕ

abbrev pub eax : Register
eax = 0b000

abbrev pub ecx : Register
ecx = 0b001

abbrev pub edx : Register
edx = 0b010

abbrev pub esp : Register
esp = 0b100

abbrev pub ebp : Register
ebp = 0b101

-- `unnamed` is any other value of the `uint8_t`.
pub data CondCode : Type 0 where
  o : CondCode
  no : CondCode
  b : CondCode
  ae : CondCode
  e : CondCode
  ne : CondCode
  be : CondCode
  a : CondCode
  s : CondCode
  ns : CondCode
  p : CondCode
  np : CondCode
  l : CondCode
  ge : CondCode
  le : CondCode
  g : CondCode
  unnamed : ℕ → CondCode

abbrev pub cond_code : CondCode → ℕ
cond_code CondCode.o = 0x0
cond_code CondCode.no = 0x1
cond_code CondCode.b = 0x2
cond_code CondCode.ae = 0x3
cond_code CondCode.e = 0x4
cond_code CondCode.ne = 0x5
cond_code CondCode.be = 0x6
cond_code CondCode.a = 0x7
cond_code CondCode.s = 0x8
cond_code CondCode.ns = 0x9
cond_code CondCode.p = 0xa
cond_code CondCode.np = 0xb
cond_code CondCode.l = 0xc
cond_code CondCode.ge = 0xd
cond_code CondCode.le = 0xe
cond_code CondCode.g = 0xf
cond_code (CondCode.unnamed n) = n
