-- ===== src/Core.antt =====
-- crates/certimining-core: digests and state rules.
pub mod Error
pub mod Hash
pub mod Identity
pub mod Preimage
pub mod Machine
pub mod Prf
pub mod State
