-- ===== src/Emulation.antt =====
-- The emulators (src/emulation).
pub mod State
pub mod Guest
pub mod Handlers
pub mod InterpreterCore
pub mod Interpreter
pub mod SourceBlock
pub mod BlockPartitioner
pub mod CompilerConfig
pub mod CompiledBlock
pub mod BlockMap
pub mod Compiler
pub mod JumpResolver
pub mod Runtime
pub mod HybridRuntime
