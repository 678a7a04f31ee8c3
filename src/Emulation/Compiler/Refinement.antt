-- ===== src/Emulation/Compiler/Refinement.antt =====
-- The code of src/emulation/compiler.cpp does what src/emulation/interpreter_core.cpp does.
pub mod Alu
pub mod Immediate
pub mod Compare
pub mod Shift
pub mod HiLo
pub mod Refines
pub mod RegisterInstr
pub mod ImmediateInstr
