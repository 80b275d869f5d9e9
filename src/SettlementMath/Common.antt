-- ===== src/SettlementMath/Common.antt =====
-- contracts/src/math_common.rs, and the price direction and pool tests of
-- contracts/src/settlement_math.rs.
use xelma_blockchain.Prelude.{ℕ, Bool, not, ltb, bool_eq, if◌then◌else◌}
use xelma_blockchain.Int.{ℤ, pos, eqb_ℤ}
use xelma_blockchain.Machine.{checked_add, checked_mul, saturating_add}
use xelma_blockchain.Errors.{Result, ok_or, payout_overflow}

abbrev pub bps_denominator : ℕ
bps_denominator = 10_000

unfoldable pub payout_add : ℤ → ℤ → Result ℤ
payout_add a b = ok_or (checked_add a b) payout_overflow

unfoldable pub payout_mul : ℤ → ℤ → Result ℤ
payout_mul a b = ok_or (checked_mul a b) payout_overflow

pub data PriceDirection : Type 0 where
  up down unchanged : PriceDirection

unfoldable pub classify_price_direction : ℕ → ℕ → PriceDirection
classify_price_direction start_price final_price =
    if ltb start_price final_price
    then up
    else if ltb final_price start_price
    then down
    else unchanged

unfoldable pub is_one_sided_pool : ℤ → ℤ → Bool
is_one_sided_pool pool_up pool_down =
    not (bool_eq (eqb_ℤ pool_up (pos 0)) (eqb_ℤ pool_down (pos 0)))

unfoldable pub total_pot_updown : ℤ → ℤ → ℤ
total_pot_updown pool_up pool_down = saturating_add pool_up pool_down
