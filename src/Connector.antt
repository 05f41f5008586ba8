-- ===== src/Connector.antt =====
-- crates/agent/src/connector.rs: what the connector sends to the control plane, what it reads of it,
-- and the state by which it decides to send again.
pub mod Message
pub mod Ready
pub mod Sessions
pub mod Instances
pub mod Replies
pub mod Dispatch
pub mod Waiting
mod Tests
