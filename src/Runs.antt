-- ===== src/Runs.antt =====
-- daemon/manager_runs.go: prompting, steering, aborting and settling a conversation.
pub mod State
pub mod Queue
pub mod Steps
pub mod Sound
pub mod Alone
pub mod Race
