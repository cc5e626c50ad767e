-- ===== src/Service.antt =====
-- The processes of crates/certimining-client/src/bin: the batcher's, which writes a handoff, and the
-- worker's, which acts on it. Files, the clock and the endpoint are parameters.
pub mod Producer
pub mod Handed
pub mod Worker
pub mod Turns
pub mod Budget
pub mod Loop
