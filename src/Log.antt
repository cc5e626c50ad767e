-- ===== src/Log.antt =====
-- crates/certimining-log: the epoch tree, its proofs, the promises and the batcher.
pub mod Tree
pub mod Proof
pub mod Promise
pub mod Batcher
