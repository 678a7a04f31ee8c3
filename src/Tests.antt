-- ===== src/Tests.antt =====
-- Theorems applied to concrete inputs, by part of the program.
mod Data
mod Mips
mod Emulation
mod Compiler
mod X86
mod Memory
mod Threading
