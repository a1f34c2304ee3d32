-- ===== src/Session.antt =====
-- The session store: src/just_another_coding_agent/session/jsonl.py and contracts/session.py.
pub mod Errors
pub mod Events
pub mod Messages
pub mod Summary
pub mod Entries
pub mod Load
pub mod Lines
pub mod Files
pub mod Append
pub mod Fork
pub mod Compact
pub mod Names
pub mod Upkeep
