-- ===== src/SettlementMath/PrecisionPayouts.antt =====
-- `compute_precision_payouts` and `compute_precision_payouts_with_policy` of
-- contracts/src/settlement_math.rs.
pub mod Assignment
pub mod Picked
pub mod ByPolicy
pub mod Conservation
use xelma_blockchain.Prelude.{
  ℕ, zero, suc, Bool, true, false, ◌&&◌, ◌||◌, Option, none, some, List, [], ◌∷◌, map, length,
  get_elem?, ◌==◌, if◌then◌else◌,
}
use xelma_blockchain.Int.{ℤ, pos, ltb_ℤ, leb_ℤ}
use xelma_blockchain.Errors.{Result, ok, or_panic, ◌>>=◌}
use xelma_blockchain.SettlementMath.Fees.{compute_precision_fee}
use xelma_blockchain.SettlementMath.Pot.{
  is_empty, split_pot_among_winners, split_pot_stake_weighted,
}
use xelma_blockchain.SettlementMath.Precision.{
  PrecisionEntry, PrecisionPayoutPolicy, equal, stake_weighted, PrecisionScoringPolicy,
  PrecisionWinnersResult, default_policy, find_precision_winners_with_policy,
}

pub record PrecisionPayoutEntry : Type 0 where
  pub index : ℕ
  pub stake : ℤ
  pub predicted_price : ℕ
  pub payout : ℤ
  pub is_winner : Bool
  pub is_refund : Bool

abbrev pub payout_entry : PrecisionEntry → ℤ → Bool → Bool → PrecisionPayoutEntry
payout_entry entry payout is_winner is_refund = record {
  index = entry.index;
  stake = entry.amount;
  predicted_price = entry.predicted_price;
  payout = payout;
  is_winner = is_winner;
  is_refund = is_refund;
}

-- `entries[idx].amount` for each winner; an index out of range is a trap.
unfoldable pub stakes_at : List PrecisionEntry → List ℕ → Result (List ℤ)
stakes_at entries [] = ok []
stakes_at entries (idx ∷ indices) = do
  entry ← or_panic (get_elem? entries idx)
  stakes ← stakes_at entries indices
  ok (entry.amount ∷ stakes)

unfoldable pub split_by_policy :
    PrecisionPayoutPolicy → List PrecisionEntry → List ℕ → ℤ → Result (List ℤ)
unfolding stakes_at
split_by_policy equal entries winner_indices distributable =
    split_pot_among_winners distributable (length winner_indices)
split_by_policy stake_weighted entries winner_indices distributable = do
  winner_stakes ← stakes_at entries winner_indices
  split_pot_stake_weighted distributable winner_stakes

-- `winner_indices.iter().position(…)`
unfoldable pub position : List ℕ → ℕ → Option ℕ
position [] idx = none
position (w ∷ ws) idx =
    if w == idx then some 0 else elim (position ws idx) [ none ↦ none | some n ↦ some (suc n) ]

-- A winner takes `winner_payouts[pos]`, a trap if there is none; any other entry takes 0.
unfoldable pub pay_at : List ℤ → PrecisionEntry → Option ℕ → Result PrecisionPayoutEntry
pay_at winner_payouts entry none = ok (payout_entry entry (pos 0) false false)
pay_at winner_payouts entry (some n) = do
  payout ← or_panic (get_elem? winner_payouts n)
  ok (payout_entry entry payout true false)

-- The last loop.
unfoldable pub assign_payouts :
    List ℕ → List ℤ → List PrecisionEntry → Result (List PrecisionPayoutEntry)
unfolding position pay_at
assign_payouts winner_indices winner_payouts [] = ok []
assign_payouts winner_indices winner_payouts (entry ∷ entries) = do
  paid ← pay_at winner_payouts entry (position winner_indices entry.index)
  rest ← assign_payouts winner_indices winner_payouts entries
  ok (paid ∷ rest)

unfoldable pub settle_winners :
    List PrecisionEntry
    → PrecisionWinnersResult
    → Option ℕ
    → PrecisionPayoutPolicy
    → Result (List PrecisionPayoutEntry)
unfolding split_by_policy assign_payouts
settle_winners entries result fee_bps payout_policy = do
  (distributable, _fee_amount) ← compute_precision_fee result.total_pot fee_bps
  winner_payouts ← split_by_policy payout_policy entries result.winner_indices distributable
  assign_payouts result.winner_indices winner_payouts entries

unfoldable pub compute_precision_payouts_with_policy :
    List PrecisionEntry
    → ℕ
    → Option ℕ
    → PrecisionScoringPolicy
    → PrecisionPayoutPolicy
    → Result (List PrecisionPayoutEntry)
compute_precision_payouts_with_policy entries final_price fee_bps scoring_policy payout_policy =
    let result = find_precision_winners_with_policy entries final_price scoring_policy in
    if is_empty result.winner_indices && ltb_ℤ (pos 0) result.total_pot
    then ok (map (λ entry. payout_entry entry entry.amount false true) entries)
    else if leb_ℤ result.total_pot (pos 0) || is_empty result.winner_indices
    then ok (map (λ entry. payout_entry entry (pos 0) false false) entries)
    else settle_winners entries result fee_bps payout_policy

unfoldable pub compute_precision_payouts :
    List PrecisionEntry → ℕ → Option ℕ → Result (List PrecisionPayoutEntry)
unfolding compute_precision_payouts_with_policy
compute_precision_payouts entries final_price fee_bps =
    compute_precision_payouts_with_policy entries final_price fee_bps default_policy equal
