-- ===== src/Examples.antt =====
-- The example programs of the directory examples.
pub mod Batch
pub mod Bench
pub mod Threads
pub mod Gateway
pub mod CppClient
