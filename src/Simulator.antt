-- ===== src/Simulator.antt =====
-- The cache simulator in C++ of CPU-cache/WonhoLee_Lab4.
pub mod CacheBase
