-- ===== src/Client.antt =====
-- crates/certimining-client: the decisions that the client keeps apart from its network calls.
pub mod Schedule
pub mod Publication
pub mod Separation
pub mod Worker
pub mod Handoff
pub mod Bitcoin
pub mod Alert
pub mod Fetch
pub mod Receipt
pub mod ErrorCode
pub mod Cluster
