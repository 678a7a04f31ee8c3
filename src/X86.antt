-- ===== src/X86.antt =====
-- The code generator for the host (src/x86) and its buffer (src/vector_buffer.hpp).
pub mod Isa
pub mod Utils
pub mod Assembler
pub mod Decode
pub mod Processor
pub mod Linker
