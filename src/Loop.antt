-- ===== src/Loop.antt =====
-- agentloop/loop.go: the model/tool/model cycle.
pub mod Event
pub mod Outcome
pub mod Config
pub mod Reasoning
pub mod Tools
pub mod Run
pub mod Trace
pub mod Silence
pub mod Grammar
pub mod Answer
pub mod Calls
