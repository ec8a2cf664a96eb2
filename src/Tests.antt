-- ===== src/Tests.antt =====
-- Concrete runs, teams and conversations, to which the theorems are applied.
pub mod Configuration
pub mod Store
pub mod Lifecycle
pub mod Codex
pub mod Loop
pub mod McpClient
pub mod Team
pub mod Runs
pub mod Extensions
pub mod Skills
