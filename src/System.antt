-- ===== src/System.antt =====
-- The worker of crates/certimining-client and the program of programs/certimining-checkpoint on one
-- log: what the worker decides to publish, the program accepts.
pub mod Publication
pub mod Chain
pub mod Daily
pub mod Receipts
