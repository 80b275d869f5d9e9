-- ===== src/Tests.antt =====
-- Tests, and the properties applied to concrete inputs.
mod SettlementMath
mod Oracle
mod Contract
mod Replay
mod Committee
