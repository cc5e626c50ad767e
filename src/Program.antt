-- ===== src/Program.antt =====
-- programs/certimining-checkpoint: the program that holds one root per epoch on the chain.
pub mod Outcome
pub mod Checkpoint
