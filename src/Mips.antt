-- ===== src/Mips.antt =====
-- The guest machine (src/mips): instruction set, encoding, registers, memory, programs.
pub mod Isa
pub mod Encoding
pub mod RegisterFile
pub mod MemoryMap
pub mod Program
pub mod Classify
