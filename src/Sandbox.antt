-- ===== src/Sandbox.antt =====
-- The sandbox contract: src/just_another_coding_agent/contracts/sandbox.py.
pub mod Policy
pub mod Grants
pub mod Approval
pub mod Normalize
pub mod Capabilities
pub mod Tests
