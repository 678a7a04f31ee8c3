-- ===== src/Emulation/Handlers.antt =====
-- The `execute_*` methods of src/emulation/interpreter_core.cpp, by what they work on.
pub mod Alu
pub mod HiLo
pub mod Shift
pub mod Immediate
pub mod Memory
pub mod Control
