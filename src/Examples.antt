-- ===== src/Examples.antt =====
-- Concrete inputs for every theorem with hypotheses: each is applied where its hypotheses hold.
pub mod Toy
pub mod Chain
pub mod Epoch
pub mod Published
pub mod Worker
pub mod Headers
pub mod Observing
pub mod Publishing
pub mod System
pub mod Targets
pub mod Attaching
pub mod Resending
pub mod Handing
pub mod Turning
