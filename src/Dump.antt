-- ===== src/Dump.antt =====
-- ssat/core/dump: the raw audit dump, its writer, its index and its reader.
pub mod Types
pub mod Storage
pub mod Index
pub mod Session
pub mod Writer
pub mod Sound
pub mod Reopen
pub mod Open
pub mod Create
