-- ===== src/SettlementMath/Oracle/Median.antt =====
-- `median_of_sorted` of contracts/src/settlement_math.rs stays between bounds of the prices.
use xelma_blockchain.Prelude.{ℕ, ◌≤◌}

abbrev pub Within : ℕ → ℕ → ℕ → Type 0
Within lo hi p = (lo ≤ p) × (p ≤ hi)
