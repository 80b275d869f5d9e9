-- ===== src/SettlementMath/Fees.antt =====
-- The protocol fee of contracts/src/settlement_math.rs: `compute_updown_fee` and
-- `compute_precision_fee`. The rate is a `u32`, so `bps as i128` is exact.
pub mod Conservation
use xelma_blockchain.Prelude.{ℕ, Option, none, some, Bool, true, false, if◌then◌else◌}
use xelma_blockchain.Int.{ℤ, pos, eqb_ℤ, leb_ℤ, min_ℤ}
use xelma_blockchain.Machine.{checked_mul, checked_sub, quot}
use xelma_blockchain.Errors.{Result, ok, err, ok_or, ◌>>=◌, overflow, payout_overflow}
use xelma_blockchain.SettlementMath.Common.{bps_denominator, payout_add}

-- The deduction: first from the losing pool, the spillover from the winning pool.
unfoldable pub deduct_updown_fee : ℤ → ℤ → ℤ → Result (ℤ × ℤ × ℤ)
deduct_updown_fee winning_pool losing_pool fee_amount = do
  let fee_from_losing = min_ℤ fee_amount losing_pool
  fee_from_winning ← ok_or (checked_sub fee_amount fee_from_losing) overflow
  dist_winning ← ok_or (checked_sub winning_pool fee_from_winning) overflow
  dist_losing ← ok_or (checked_sub losing_pool fee_from_losing) overflow
  ok (dist_winning, dist_losing, fee_amount)

-- The post-fee winning pool, the post-fee losing pool and the fee.
unfoldable pub compute_updown_fee : ℤ → ℤ → Option ℕ → Result (ℤ × ℤ × ℤ)
unfolding payout_add
compute_updown_fee winning_pool losing_pool none = ok (winning_pool, losing_pool, pos 0)
compute_updown_fee winning_pool losing_pool (some bps_value) = do
  total_pot ← payout_add winning_pool losing_pool
  product ← ok_or (checked_mul total_pot (pos bps_value)) overflow
  let fee_amount = quot product bps_denominator
  if eqb_ℤ fee_amount (pos 0)
      then ok (winning_pool, losing_pool, pos 0)
      else deduct_updown_fee winning_pool losing_pool fee_amount

-- The distributable amount and the fee.
unfoldable pub compute_precision_fee : ℤ → Option ℕ → Result (ℤ × ℤ)
compute_precision_fee total_pot none = ok (total_pot, pos 0)
compute_precision_fee total_pot (some bps_value) =
    if leb_ℤ total_pot (pos 0) then ok (total_pot, pos 0) else (do
      product ← ok_or (checked_mul total_pot (pos bps_value)) payout_overflow
      let fee_amount = quot product bps_denominator
      distributable ← ok_or (checked_sub total_pot fee_amount) payout_overflow
      ok (distributable, fee_amount))
