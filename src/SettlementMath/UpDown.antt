-- ===== src/SettlementMath/UpDown.antt =====
-- The up/down payout engine of contracts/src/settlement_math.rs. An index is a `usize`; prices are
-- `u128`.
pub mod Entries
pub mod Shares
pub mod Solvency
pub mod Payouts
use xelma_blockchain.Prelude.{
  ℕ, Option, Bool, true, false, ◌||◌, bool_eq, List, [], ◌∷◌, map, if◌then◌else◌,
}
use xelma_blockchain.Int.{ℤ, pos, eqb_ℤ}
use xelma_blockchain.Machine.{checked_div}
use xelma_blockchain.Errors.{Result, ok, panic, or_panic, ◌>>=◌}
use xelma_blockchain.SettlementMath.Common.{
  PriceDirection, up, down, unchanged, classify_price_direction, is_one_sided_pool, payout_add,
  payout_mul,
}
use xelma_blockchain.SettlementMath.Fees.{compute_updown_fee}

unfoldable pub compute_updown_winner_payout : ℤ → ℤ → ℤ → Result ℤ
unfolding payout_mul
compute_updown_winner_payout stake winning_pool total_distributable =
    if eqb_ℤ winning_pool (pos 0)
    then ok (pos 0)
    else (do or_panic (checked_div (← payout_mul stake total_distributable) winning_pool))

pub record UpDownPosition : Type 0 where
  pub index : ℕ
  pub amount : ℤ
  pub side_up : Bool

pub record UpDownPayoutEntry : Type 0 where
  pub index : ℕ
  pub stake : ℤ
  pub payout : ℤ
  pub is_winner : Bool
  pub is_refund : Bool

abbrev pub refund_entry : UpDownPosition → UpDownPayoutEntry
refund_entry p = record {
  index = p.index;
  stake = p.amount;
  payout = p.amount;
  is_winner = false;
  is_refund = true;
}

abbrev pub settled_entry : UpDownPosition → Bool → ℤ → UpDownPayoutEntry
settled_entry p is_winner payout = record {
  index = p.index;
  stake = p.amount;
  payout = payout;
  is_winner = is_winner;
  is_refund = false;
}

-- The last loop of `compute_updown_payouts`.
unfoldable pub pay_positions : Bool → ℤ → ℤ → List UpDownPosition → Result (List UpDownPayoutEntry)
pay_positions winning_side_up winning_pool total_distributable [] = ok []
pay_positions winning_side_up winning_pool total_distributable (p ∷ ps) = do
  let is_winner = bool_eq p.side_up winning_side_up
  payout ←
      if is_winner
      then compute_updown_winner_payout p.amount winning_pool total_distributable
      else ok (pos 0)
  rest ← pay_positions winning_side_up winning_pool total_distributable ps
  ok (settled_entry p is_winner payout ∷ rest)

-- The competitive settlement, once the winning side and its pool are known.
unfoldable pub settle_side :
    Bool → ℤ → ℤ → Option ℕ → List UpDownPosition → Result (List UpDownPayoutEntry)
unfolding payout_add
settle_side winning_side_up winning_pool losing_pool fee_bps positions =
    if eqb_ℤ winning_pool (pos 0) then ok (map refund_entry positions) else (do
      (dist_winning, dist_losing, _fee_amount) ← compute_updown_fee winning_pool losing_pool fee_bps
      total_distributable ← payout_add dist_winning dist_losing
      pay_positions winning_side_up winning_pool total_distributable positions)

-- `unchanged` does not come here: the source says `unreachable!()`.
unfoldable pub settle_direction :
    PriceDirection → ℤ → ℤ → Option ℕ → List UpDownPosition → Result (List UpDownPayoutEntry)
settle_direction up pool_up pool_down fee_bps positions =
    settle_side true pool_up pool_down fee_bps positions
settle_direction down pool_up pool_down fee_bps positions =
    settle_side false pool_down pool_up fee_bps positions
settle_direction unchanged pool_up pool_down fee_bps positions = panic

abbrev pub is_unchanged : PriceDirection → Bool
is_unchanged up = false
is_unchanged down = false
is_unchanged unchanged = true

unfoldable pub compute_updown_payouts :
    List UpDownPosition → ℕ → ℕ → ℤ → ℤ → Option ℕ → Result (List UpDownPayoutEntry)
unfolding settle_direction is_one_sided_pool
compute_updown_payouts positions start_price final_price pool_up pool_down fee_bps =
    let direction = classify_price_direction start_price final_price in
    if is_unchanged direction || is_one_sided_pool pool_up pool_down
    then ok (map refund_entry positions)
    else settle_direction direction pool_up pool_down fee_bps positions
