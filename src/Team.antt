-- ===== src/Team.antt =====
-- Persistent child agents: threadstore/types.go, agentteam/types.go and daemon/subagents.go.
pub mod Types
pub mod Policy
pub mod Tools
pub mod Spawn
pub mod Route
pub mod Ancestry
pub mod Grants
pub mod RouteLaws
pub mod Wait
pub mod WaitLaws
pub mod Mailbox
pub mod Limits
pub mod Narrowing
pub mod Granting
