-- ===== src/Compaction.antt =====
-- When a session is compacted and what a run resumes from: agent/runtime/compaction.
pub mod Boundary
pub mod Resume
pub mod Trigger
pub mod Window
pub mod Settled
pub mod Stored
mod Tests
