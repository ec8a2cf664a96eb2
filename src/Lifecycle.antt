-- ===== src/Lifecycle.antt =====
-- internal/lifecycle: the files and the supervisor of the user's daemon.
pub mod Runtime
pub mod Removal
pub mod Session
pub mod Supervisor
pub mod Stop
pub mod Trace
pub mod Exit
pub mod Shutdown
pub mod Startup
pub mod Launch
