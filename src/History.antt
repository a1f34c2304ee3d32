-- ===== src/History.antt =====
-- The message history between model and tools: agent/session/replacement_history.py but for the
-- summary messages, which are in Session/Summary.
pub mod Sanitize
pub mod Unpaired
pub mod Replacement
pub mod ValidReplacement
pub mod InRun
pub mod Shown
pub mod Kept
pub mod Counted
mod Tests
