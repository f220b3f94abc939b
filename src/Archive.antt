-- ===== src/Archive.antt =====
-- packages/archive-format: the portable archive of a suite's content.
pub mod Errors
pub mod Limits
pub mod Paths
pub mod EntryPolicy
pub mod Versions
pub mod Json
pub mod Jsonl
pub mod Checksums
