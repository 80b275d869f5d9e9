-- ===== src/Replay/Refinement.antt =====
-- The live settlement of an up/down round (`_resolve_updown_mode` of contracts/src/settlement.rs) pays
-- what the replay of its transcript computes (replay-engine/src/engine.rs).
pub mod Rows
pub mod Fee
pub mod Outcome
pub mod Cases
pub mod Live
