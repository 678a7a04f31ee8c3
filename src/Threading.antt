-- ===== src/Threading.antt =====
-- Worker threads (src/threading).
pub mod WorkerPool
