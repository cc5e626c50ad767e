-- ===== src/Client/Bitcoin.antt =====
-- crates/certimining-client/src/bitcoin.rs: Bitcoin headers against a checkpoint.
pub mod Target
pub mod Compact
pub mod Rounding
pub mod Retargeted
pub mod Retarget
pub mod Header
pub mod Chain
pub mod Confirm
pub mod Arithmetic
pub mod Scaling
pub mod Work
pub mod Verified
pub mod Buried
