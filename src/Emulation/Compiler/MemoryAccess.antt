-- ===== src/Emulation/Compiler/MemoryAccess.antt =====
-- Loads and stores of guest memory, by calls of host functions: `compile_compute_mem_addr` to
-- `compile_call` of src/emulation/compiler.cpp. A label's string is a number here.
use ji_tboy.Base.{Bool, true, false, ◌==◌, ◌&&◌, not, if◌then◌else◌, sext16, ok}
use ji_tboy.Mips.Isa.{InstructionI, zero_reg}
use ji_tboy.X86.Isa.{
  Register, eax, ecx, edx, op_mov, op_add_i, ext_add_i, op_push, ext_push, op_pop, ext_pop,
  op_mov_i, ext_mov_i,
}
use ji_tboy.X86.Assembler.{JumpAdjust, size}
use ji_tboy.X86.Assembler.Jump.{call}
use ji_tboy.X86.Linker.{Label, label_global, resolve}
use ji_tboy.Emulation.Compiler.{Host, Step, ◌⨟◌, skip, addr_reg, acc1_reg}
use ji_tboy.Emulation.Compiler.Registers.{
  calc_reg_offset, emit_instr, emit_ext, emit_ext_offset, emit_imm, compile_reg_load,
  compile_reg_write, load, store,
}

-- `__mem_read<T>`, `__mem_write<T>`, `__mem_lwl` and `__mem_lwr`
pub data MemFunction : Type 0 where
  read_u32 read_i8 read_u8 read_i16 read_u16 write_u32 write_u8 write_u16 lwl lwr : MemFunction

abbrev pub label_of : MemFunction → Label
label_of read_u32 = 0
label_of read_i8 = 1
label_of read_u8 = 2
label_of read_i16 = 3
label_of read_u16 = 4
label_of write_u32 = 5
label_of write_u8 = 6
label_of write_u16 = 7
label_of lwl = 8
label_of lwr = 9

unfoldable pub compile_compute_mem_addr : Register → InstructionI → Step
unfolding ◌⨟◌ compile_reg_load emit_imm emit_instr
compile_compute_mem_addr dst instr =
    if not (instr.constant == 0)
    then (if dst == addr_reg
        then load acc1_reg instr.rs
          ⨟ emit_imm op_add_i ext_add_i acc1_reg (sext16 instr.constant)
          ⨟ emit_instr op_mov dst acc1_reg
        else load dst instr.rs ⨟ emit_imm op_add_i ext_add_i dst (sext16 instr.constant))
    else load dst instr.rs

module _ (host : Host) where
  -- `compile_call(func, label)`
  unfoldable pub compile_call : MemFunction → Step
  unfolding label_global resolve call size
  compile_call f c =
      let l = label_global (label_of f) (host.function (label_of f)) c.linker in
      let (a, l') = resolve (label_of f) size (call JumpAdjust.auto) c.assembler l in
      ok (record c { assembler = a; linker = l' })

  -- `compile_call_instance` on the guest's memory
  unfoldable pub compile_call_instance : MemFunction → Step → Step
  unfolding ◌⨟◌ emit_ext emit_imm compile_call
  compile_call_instance f pre_call =
      emit_ext op_push ext_push addr_reg
      ⨟ pre_call
      ⨟ emit_imm op_mov_i ext_mov_i ecx host.mem
      ⨟ compile_call f
      ⨟ emit_ext op_pop ext_pop addr_reg

  unfoldable pub compile_mem_instr : InstructionI → MemFunction → Bool → Bool → Step
  unfolding ◌⨟◌ skip compile_compute_mem_addr compile_call_instance emit_ext_offset
      compile_reg_write
  compile_mem_instr instr f has_arg has_return =
      compile_compute_mem_addr edx instr
      ⨟ compile_call_instance f (
          if has_arg
          then emit_ext_offset op_push ext_push addr_reg (calc_reg_offset instr.rt)
          else skip)
      ⨟ (if has_return && not (instr.rt == zero_reg) then store instr.rt eax else skip)

  -- `compile_mem_write<T>` and `compile_mem_read<T>`, `T` being in the function's name
  unfoldable pub compile_mem_write : MemFunction → InstructionI → Step
  unfolding compile_mem_instr
  compile_mem_write f instr = compile_mem_instr instr f true false

  unfoldable pub compile_mem_read : MemFunction → InstructionI → Step
  unfolding compile_mem_instr
  compile_mem_read f instr = compile_mem_instr instr f false true

  unfoldable pub compile_lwl : InstructionI → Step
  unfolding compile_mem_instr
  compile_lwl instr = compile_mem_instr instr lwl true true

  unfoldable pub compile_lwr : InstructionI → Step
  unfolding compile_mem_instr
  compile_lwr instr = compile_mem_instr instr lwr true true
