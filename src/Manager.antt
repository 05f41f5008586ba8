-- ===== src/Manager.antt =====
-- crates/agent/src/app_server_manager.rs: the manager of the local app-server process.
pub mod Types
pub mod Host
pub mod Process
pub mod Ready
pub mod Restart
pub mod Runtime
pub mod Calls
pub mod Frame
pub mod Generation
pub mod Turns
pub mod Health
pub mod Drain
pub mod Backoff
pub mod Startup
pub mod Exit
mod Tests
