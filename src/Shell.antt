-- ===== src/Shell.antt =====
-- What a shell command is read as: agent/tools/_shell_permissions.py.
pub mod Tokens
pub mod Network
pub mod Unwrap
pub mod Targets
pub mod Extract
pub mod Wrapped
pub mod Covered
pub mod Remembered
mod Tests
