-- ===== src/Contract.antt =====
-- The contract: its storage, and the entry points that change it (contracts/src).
pub mod Settings
pub mod State
pub mod Admin
pub mod AccessControl
pub mod Balances
pub mod Claims
pub mod Fees
pub mod Insurance
pub mod Config
pub mod Governance
pub mod Constitution
pub mod Betting
pub mod Resolution
pub mod PrecisionResolution
pub mod Rounds
pub mod Predictions
pub mod CashOut
pub mod Leaderboard
pub mod Settlement
pub mod Archive
pub mod Disputes
pub mod Cancellation
