-- ===== src/Permissions.antt =====
-- Which tool calls need an approval, and what an approval leaves behind: the permission modules
-- of src/just_another_coding_agent/tools.
pub mod Engine
pub mod Offers
pub mod Plan
pub mod Paths
pub mod Memory
pub mod Files
pub mod Approvals
pub mod Tests
