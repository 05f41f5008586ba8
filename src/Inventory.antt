-- ===== src/Inventory.antt =====
-- crates/agent/src/session_inventory.rs: what is modelled of the session inventory and the
-- app-server protocol.
pub mod Interaction
pub mod Archive
pub mod Calendar
pub mod Title
pub mod Sessions
pub mod Rollouts
pub mod RolloutPaths
pub mod Report
pub mod AppServer
pub mod Resolver
pub mod RecentLines
pub mod Hash
pub mod EventText
pub mod Backfill
mod Tests
mod HostTests
