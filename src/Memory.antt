-- ===== src/Memory.antt =====
-- Executable memory for compiled code: src/memory.
pub mod ExecutableAllocator
pub mod DynamicExecutableAllocator
pub mod FixedPool
pub mod PoolHandle
