-- ===== src/Batching.antt =====
-- ssat/core/runtime/batching.py, with the batch values of ssat/core/runtime/types.py: dynamic
-- rebatching and recovery from adapters that run out of memory.
pub mod Size
pub mod Batch
pub mod Rebatcher
pub mod Splitter
