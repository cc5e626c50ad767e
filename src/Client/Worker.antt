-- ===== src/Client/Worker.antt =====
-- crates/certimining-client/src/worker.rs: what the unattended worker does next.
pub mod Policy
pub mod Backoff
pub mod Decision
pub mod Publishing
pub mod Cycle
