-- ===== src/Tests/Contract/Precisions.antt =====
-- The resolution of a precision round of contracts/src/settlement.rs at a small storage.
use xelma_blockchain.Prelude.{◌≡◌, refl, true, false, none, some, [], ◌∷◌}
use xelma_blockchain.Int.{pos, sum_ℤ}
use xelma_blockchain.Errors.{ok, value_or}
use xelma_blockchain.Contract.State.{Storage, put, PrecisionPrediction, precision}
use xelma_blockchain.Contract.Betting.{with_rounds}
use xelma_blockchain.Contract.PrecisionResolution.{
  PrecisionScan, precision_scan_start, scan_participants, _resolve_precision_mode,
}
use xelma_blockchain.Contract.PrecisionResolution.Nearest.{
  revealed_by, least, closest, stake_in, rows_of,
}
use xelma_blockchain.Contract.PrecisionResolution.Scanning.{scan_participants-closest}
use xelma_blockchain.Contract.PrecisionResolution.Winners.{PrecisionSettled}
use xelma_blockchain.Contract.PrecisionResolution.Settled.{_resolve_precision_mode-PrecisionSettled}
use xelma_blockchain.Tests.Contract.{everyone_at, only, base, no_rounds}
use xelma_blockchain.Tests.Contract.Stakes.{round_with}

abbrev near : PrecisionPrediction
near = record { user = 1; predicted_price = 2_300; amount = pos 40 }

abbrev far : PrecisionPrediction
far = record { user = 2; predicted_price = 2_290; amount = pos 30 }

-- Users 1 and 2 have revealed their predictions; user 4 has not revealed a commitment of 10.
abbrev pub predicted : Storage
predicted = with_rounds base (record no_rounds {
  active_round = some (round_with precision 0 0);
  participants = only 3 (2 ∷ 1 ∷ 4 ∷ []);
  precision_position = λ round_id. put (only 1 near) 2 far;
  precision_commitment =
      λ round_id. only 4 (record { hash = 7; amount = pos 10; revealed = false });
})

-- At 2298, the second prediction read takes the place of the first.
abbrev scanned : PrecisionScan
scanned = record {
  min_diff = some 2;
  winners = near ∷ [];
  total_pot = pos 80;
  rows =
      record { amount = pos 30; price = 2_290; revealed = true; was_winner = false }
      ∷ record { amount = pos 40; price = 2_300; revealed = true; was_winner = true }
      ∷ record { amount = pos 10; price = 0; revealed = false; was_winner = false }
      ∷ [];
}

scans : scan_participants 3 predicted 2_298 (2 ∷ 1 ∷ 4 ∷ []) precision_scan_start ≡ ok scanned
unfolding scan_participants xelma_blockchain.Contract.PrecisionResolution.scan_participant
    xelma_blockchain.SettlementMath.Common.payout_add xelma_blockchain.Machine.checked_add
    xelma_blockchain.Int.◌+ℤ◌ xelma_blockchain.Contract.PrecisionResolution.staked_amount put
    xelma_blockchain.Contract.PrecisionResolution.place_participant
    xelma_blockchain.Contract.PrecisionResolution.place_prediction
    xelma_blockchain.SettlementMath.Precision.abs_diff
scans = refl

scan_participants-closest_example :
    (scanned.winners
      ≡ closest 2_298 (revealed_by (predicted.rounds.precision_position 3) (2 ∷ 1 ∷ 4 ∷ [])))
    × (scanned.rows
        ≡ rows_of 2_298
            (predicted.rounds.precision_position 3)
            (predicted.rounds.precision_commitment 3)
            (least 2_298 none
              (revealed_by (predicted.rounds.precision_position 3) (2 ∷ 1 ∷ 4 ∷ [])))
            (2 ∷ 1 ∷ 4 ∷ []))
    × (scanned.total_pot
        ≡ sum_ℤ
            (stake_in 2_298
              (predicted.rounds.precision_position 3)
              (predicted.rounds.precision_commitment 3))
            (2 ∷ 1 ∷ 4 ∷ []))
scan_participants-closest_example =
    scan_participants-closest 2_298 3 predicted (2 ∷ 1 ∷ 4 ∷ []) scans

-- The pot of 80 less the fee of 2 is the nearest user's.
abbrev precision_settled : Storage
precision_settled = elim (_resolve_precision_mode (everyone_at 21) 3 2_298 false predicted) [
  | ok r ↦ r.1
  | _ ↦ predicted
]

one_precision :
    _resolve_precision_mode (everyone_at 21) 3 2_298 false predicted
    ≡ ok ((pos 2, pos 80), precision_settled)
unfolding _resolve_precision_mode xelma_blockchain.Contract.Balances.sort_addresses
    scan_participants xelma_blockchain.Contract.PrecisionResolution.scan_participant
    xelma_blockchain.SettlementMath.Common.payout_add xelma_blockchain.Machine.checked_add
    xelma_blockchain.Int.◌+ℤ◌ xelma_blockchain.Contract.PrecisionResolution.staked_amount put
    xelma_blockchain.Contract.PrecisionResolution.place_participant
    xelma_blockchain.Contract.PrecisionResolution.place_prediction
    xelma_blockchain.SettlementMath.Precision.abs_diff
    xelma_blockchain.Contract.PrecisionResolution.settle_precision
    xelma_blockchain.Contract.PrecisionResolution.settle_precision_winners
    xelma_blockchain.SettlementMath.Pot.sum_stakes
    xelma_blockchain.Contract.Fees._apply_protocol_fee_precision
    xelma_blockchain.Contract.Fees.calculate_protocol_fee_precision
    xelma_blockchain.Contract.Fees._read_protocol_fee_bps
    xelma_blockchain.Contract.Fees.taxable_base xelma_blockchain.Contract.Fees._read_fee_model
    xelma_blockchain.Contract.Fees.tax_precision xelma_blockchain.Machine.checked_mul
    xelma_blockchain.Int.◌*ℤ◌ xelma_blockchain.Machine.checked_sub xelma_blockchain.Int.◌-ℤ◌
    xelma_blockchain.Contract.Fees._collect_protocol_fee
    xelma_blockchain.Contract.Fees.collect_insurance_fee
    xelma_blockchain.Contract.Fees.get_insurance_split_bps xelma_blockchain.Machine.checked_div
    xelma_blockchain.Contract.Fees.credit_insurance_fund
    xelma_blockchain.Contract.Fees.get_insurance_fund_balance
    xelma_blockchain.Contract.Fees.read_treasury xelma_blockchain.Contract.Fees.write_insurance_fund
    xelma_blockchain.Contract.PrecisionResolution._calculate_precision_payouts
    xelma_blockchain.Contract.PrecisionResolution.payouts_by_policy
    xelma_blockchain.Contract.PrecisionResolution._read_precision_payout_policy
    xelma_blockchain.Contract.Fees.write_treasury
    xelma_blockchain.Contract.PrecisionResolution.equal_payouts
    xelma_blockchain.Contract.PrecisionResolution.add_remainder
    xelma_blockchain.Contract.PrecisionResolution.pay_winners
    xelma_blockchain.Contract.PrecisionResolution.pay_winner
    xelma_blockchain.Contract.PrecisionResolution.credit_winner
    xelma_blockchain.Contract.Balances._accumulate_pending
    xelma_blockchain.Contract.Leaderboard._update_stats_win
    xelma_blockchain.Contract.Leaderboard.won xelma_blockchain.Machine.checked_u
    xelma_blockchain.Contract.Leaderboard.lifetime_user_stats
    xelma_blockchain.Contract.Leaderboard._update_season_stats_win
    xelma_blockchain.Contract.Leaderboard.update_season
    xelma_blockchain.Contract.CashOut._persist_user_outcome
    xelma_blockchain.Contract.Leaderboard._update_season_leaderboards
    xelma_blockchain.Contract.Leaderboard._update_season_stats_loss
    xelma_blockchain.Contract.State.put_in_round
    xelma_blockchain.Contract.Leaderboard._current_season_id
    xelma_blockchain.Contract.Resolution._resolve_updown_mode
    xelma_blockchain.Contract.Resolution.resolve_by_direction
    xelma_blockchain.SettlementMath.Common.classify_price_direction
    xelma_blockchain.SettlementMath.Common.is_one_sided_pool
    xelma_blockchain.Contract.Balances.insert_address
    xelma_blockchain.Contract.Settlement._record_winnings_indexed
    xelma_blockchain.Contract.Fees._apply_protocol_fee_updown
    xelma_blockchain.Contract.Fees.calculate_protocol_fee_updown
    xelma_blockchain.Contract.Balances._set_balance xelma_blockchain.Contract.Fees.updown_fee_amount
    xelma_blockchain.Contract.Fees.deduct_fee xelma_blockchain.Contract.Leaderboard.lost
    xelma_blockchain.Contract.Leaderboard.season_user_stats_raw
    xelma_blockchain.Contract.Leaderboard.updated_index
    xelma_blockchain.Contract.Balances.pending_of
    xelma_blockchain.SettlementMath.UpDown.compute_updown_winner_payout
    xelma_blockchain.SettlementMath.Common.payout_mul
    xelma_blockchain.Contract.Leaderboard._update_stats_loss value_or
    xelma_blockchain.Contract.Settlement.settle_participant
    xelma_blockchain.Contract.Leaderboard._update_leaderboards
    xelma_blockchain.Contract.Leaderboard.insert_ranked
    xelma_blockchain.Contract.Leaderboard.reinsert_sorted
    xelma_blockchain.Contract.Leaderboard.outranks xelma_blockchain.Contract.CashOut.without
    xelma_blockchain.Contract.Settlement.settle_participants
    xelma_blockchain.Contract.PrecisionResolution.record_losses
    xelma_blockchain.Contract.PrecisionResolution.record_loss
one_precision = refl

_resolve_precision_mode-PrecisionSettled_example :
    PrecisionSettled 3 2_298 predicted ((pos 2, pos 80), precision_settled)
_resolve_precision_mode-PrecisionSettled_example =
    _resolve_precision_mode-PrecisionSettled (everyone_at 21) 3 2_298 predicted one_precision
