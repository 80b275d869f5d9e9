-- ===== src/Tests/SettlementMath.antt =====
-- The properties of contracts/src/settlement_math.rs at concrete rounds.
use xelma_blockchain.Prelude.{
  ℕ, ◌≡◌, refl, arith, Bool, true, false, none, some, List, [], ◌∷◌, map,
}
use xelma_blockchain.Int.{pos, ◌+ℤ◌, ◌-ℤ◌, ◌*ℤ◌}
use xelma_blockchain.Machine.{saturating_add, checked_add, checked_sub, checked_mul, checked_div}
use xelma_blockchain.Errors.{ok}
use xelma_blockchain.SettlementMath.Fees.{compute_updown_fee, compute_precision_fee}
use xelma_blockchain.SettlementMath.Fees.Conservation.{compute_updown_fee_total}
use xelma_blockchain.SettlementMath.UpDown.{
  UpDownPosition, UpDownPayoutEntry, compute_updown_payouts,
}
use xelma_blockchain.SettlementMath.UpDown.Entries.{paid_entry}
use xelma_blockchain.SettlementMath.UpDown.Solvency as Solvency
use xelma_blockchain.SettlementMath.UpDown.Payouts.{compute_updown_payouts_total}
use xelma_blockchain.SettlementMath.Pot.{
  sum_stakes, weighted_shares, split_pot_among_winners, split_pot_stake_weighted,
}
use xelma_blockchain.SettlementMath.Pot.Equal.{split_pot_among_winners_total}
use xelma_blockchain.SettlementMath.Precision.{
  PrecisionEntry, PrecisionScoringPolicy, relative_distance, score_of, stake_weighted,
  find_precision_winners, find_precision_winners_with_policy,
}
use xelma_blockchain.SettlementMath.Precision.Winners.{find_precision_winners-closest}
use xelma_blockchain.SettlementMath.PrecisionPayouts.{
  PrecisionPayoutEntry, settle_winners, compute_precision_payouts_with_policy,
  compute_precision_payouts,
}
use xelma_blockchain.SettlementMath.PrecisionPayouts.Conservation.{
  compute_precision_payouts_with_policy-IsSettled, compute_precision_payouts-Returns, IsSettled,
}

fee_of_150 : compute_updown_fee (pos 100) (pos 50) (some 300) ≡ ok (pos 100, pos 46, pos 4)
fee_of_150 = compute_updown_fee_total 100 50 300 (omega arith) (omega arith) (omega arith)

-- Pools of 100 and 50 at 3 per cent.
compute_updown_fee_total_example :
    compute_updown_fee (pos 100) (pos 50) (some 300) ≡ ok (pos 100, pos 46, pos 4)
compute_updown_fee_total_example =
    compute_updown_fee_total 100 50 300 (omega arith) (omega arith) (omega arith)

abbrev stake_on : ℕ → ℕ → Bool → UpDownPosition
stake_on index amount side_up = record { index = index; amount = pos amount; side_up = side_up }

abbrev three_positions : List UpDownPosition
three_positions = stake_on 0 60 true ∷ stake_on 1 50 false ∷ stake_on 2 40 true ∷ []

abbrev entry_of : UpDownPosition → ℕ → Bool → UpDownPayoutEntry
entry_of p payout is_winner = record {
  index = p.index;
  stake = p.amount;
  payout = pos payout;
  is_winner = is_winner;
  is_refund = false;
}

abbrev up_entries : List UpDownPayoutEntry
up_entries = map (paid_entry true (pos 100) (pos 146)) three_positions

compute_updown_payouts_total_example :
    compute_updown_payouts three_positions 10 11 (pos 100) (pos 50) (some 300) ≡ ok up_entries
compute_updown_payouts_total_example =
    compute_updown_payouts_total three_positions 10 11 100 50 (some 300) (omega arith) (omega arith)
      (omega arith) (omega arith, omega arith, omega arith) (ground arith)

three_settled :
    compute_updown_payouts three_positions 10 11 (pos 100) (pos 50) (some 300) ≡ ok up_entries
three_settled =
    compute_updown_payouts_total three_positions 10 11 100 50 (some 300) (omega arith) (omega arith)
      (omega arith) (omega arith, omega arith, omega arith) (ground arith)

three_positions-IsBacked : Solvency.IsBacked three_positions 100 50
three_positions-IsBacked = record { stakes = ground arith; up_total = refl; down_total = refl }

compute_updown_payouts-IsSolvent_example : Solvency.IsSolvent three_positions 150 4 up_entries
compute_updown_payouts-IsSolvent_example =
    Solvency.compute_updown_payouts-IsSolvent three_positions 10 11 100 50 (some 300)
      three_positions-IsBacked (omega arith) three_settled

split_pot_among_winners_total_example :
    split_pot_among_winners (pos 100) 3 ≡ ok (pos 34 ∷ pos 33 ∷ pos 33 ∷ [])
split_pot_among_winners_total_example =
    split_pot_among_winners_total 100 3 (omega arith) (omega arith) (omega arith)

abbrev guess : ℕ → ℕ → ℕ → PrecisionEntry
guess index predicted_price amount = record {
  index = index;
  predicted_price = predicted_price;
  amount = pos amount;
  revealed = true;
}

abbrev two_guesses : List PrecisionEntry
two_guesses = guess 0 95 60 ∷ guess 1 105 40 ∷ []

find_precision_winners-closest_example :
    (find_precision_winners two_guesses 100).winner_indices ≡ 0 ∷ 1 ∷ []
unfolding score_of
find_precision_winners-closest_example = find_precision_winners-closest two_guesses 100

abbrev relative_scoring : PrecisionScoringPolicy
relative_scoring = record { mode = relative_distance; confidence_band = none }

abbrev paid_guess : PrecisionEntry → ℕ → PrecisionPayoutEntry
paid_guess e payout = record {
  index = e.index;
  stake = e.amount;
  predicted_price = e.predicted_price;
  payout = pos payout;
  is_winner = true;
  is_refund = false;
}

abbrev paid_guesses : List PrecisionPayoutEntry
paid_guesses = paid_guess (guess 0 95 60) 59 ∷ paid_guess (guess 1 105 40) 38 ∷ []

weighted_guesses :
    compute_precision_payouts_with_policy two_guesses 100 (some 300) relative_scoring stake_weighted
    ≡ ok paid_guesses
unfolding compute_precision_payouts_with_policy find_precision_winners_with_policy score_of
    saturating_add ◌+ℤ◌ settle_winners compute_precision_fee checked_mul ◌*ℤ◌ checked_sub ◌-ℤ◌
    split_pot_stake_weighted sum_stakes checked_add weighted_shares checked_div
weighted_guesses = refl

compute_precision_payouts_with_policy-IsSettled_example :
    IsSettled two_guesses
      (find_precision_winners_with_policy two_guesses 100 relative_scoring).winner_indices
      100
      3
      paid_guesses
compute_precision_payouts_with_policy-IsSettled_example =
    compute_precision_payouts_with_policy-IsSettled two_guesses 100 (some 300) relative_scoring
      stake_weighted (ground arith) (ground arith) (omega arith) (omega arith) (omega arith)
      weighted_guesses

compute_precision_payouts-Returns_example :
    (out : List PrecisionPayoutEntry) × (compute_precision_payouts two_guesses 100 (some 300)
      ≡ ok out)
    × IsSettled two_guesses (find_precision_winners two_guesses 100).winner_indices 100 3 out
compute_precision_payouts-Returns_example =
    compute_precision_payouts-Returns two_guesses 100 (some 300) (ground arith) (ground arith)
      (omega arith) (omega arith) (omega arith) (omega arith)
