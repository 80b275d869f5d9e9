-- ===== src/SettlementMath.antt =====
-- contracts/src/settlement_math.rs and contracts/src/math_common.rs: the pure settlement engine.
pub mod Common
pub mod Floor
pub mod Fees
pub mod UpDown
pub mod Pot
pub mod Precision
pub mod PrecisionPayouts
pub mod Oracle
