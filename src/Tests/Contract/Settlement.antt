-- ===== src/Tests/Contract/Settlement.antt =====
-- Refunds and winnings of contracts/src/settlement.rs at a small storage.
use xelma_blockchain.Prelude.{false, ℕ, arith, ◌≡◌, refl, [], ◌∷◌}
use xelma_blockchain.Int.{ℤ, pos}
use xelma_blockchain.Errors.{ok, value_or}
use xelma_blockchain.Contract.State.{
  up_down, put, Storage, bet_up, bet_down, UserPosition, win, loss,
}
use xelma_blockchain.Contract.Balances.{with_funds}
use xelma_blockchain.Contract.Fees.{write_treasury, write_insurance_fund}
use xelma_blockchain.Contract.CashOut.{_persist_user_outcome}
use xelma_blockchain.Contract.Leaderboard.{_update_stats_win, _update_stats_loss}
use xelma_blockchain.Contract.Settlement.{
  refund_outcome, result_outcome, _record_refunds_indexed, _record_winnings_indexed,
}
use xelma_blockchain.Contract.Settlement.Awards.{Awarded, _record_winnings_indexed-Awarded}
use xelma_blockchain.Contract.Resolution.{_resolve_updown_mode}
use xelma_blockchain.Contract.Resolution.UpDown.{Resolved, _resolve_updown_mode-Resolved}
use xelma_blockchain.Tests.Contract.{everyone_at}
use xelma_blockchain.Tests.Contract.Stakes.{round_with, one_bet, two_bets}

abbrev staked_down : UserPosition
staked_down = record { amount = pos 30; side = bet_down }

abbrev owed : Storage → ℕ → ℤ → Storage
owed s user amount = with_funds s (record s.funds {
  pending_winnings = put s.funds.pending_winnings user amount;
  pending_updated_at = put s.funds.pending_updated_at user 21;
})

abbrev refunded : Storage
refunded = _persist_user_outcome 3 (refund_outcome 0 2 staked_down) (owed one_bet 2 (pos 30))

one_refund : _record_refunds_indexed (everyone_at 21) 3 0 (2 ∷ []) one_bet ≡ ok refunded
unfolding _record_refunds_indexed xelma_blockchain.Contract.Settlement.refund_participant
    xelma_blockchain.Contract.Balances._accumulate_pending
    xelma_blockchain.SettlementMath.Common.payout_add xelma_blockchain.Machine.checked_add
    xelma_blockchain.Int.◌+ℤ◌
one_refund = refl

-- The price went up: user 1 wins both pools of 40 and 30 less the fee of 2, half of it insurance.
abbrev taxed : Storage
taxed = write_treasury (write_insurance_fund two_bets (pos 1)) (pos 1)

abbrev two_won : Storage
two_won =
    _persist_user_outcome 3
      (result_outcome 1 (record { amount = pos 40; side = bet_up }) (pos 68) win)
      (value_or taxed (_update_stats_win 1 (owed taxed 1 (pos 73))))

abbrev pub two_settled : Storage
two_settled =
    _persist_user_outcome 3 (result_outcome 2 staked_down (pos 0) loss)
      (value_or two_won (_update_stats_loss 2 two_won))

two_paid :
    _record_winnings_indexed (everyone_at 21) 3 (1 ∷ 2 ∷ []) bet_up (pos 40) (pos 30) two_bets
    ≡ ok (pos 2, two_settled)
unfolding _record_winnings_indexed xelma_blockchain.Contract.Fees._apply_protocol_fee_updown
    xelma_blockchain.Contract.Fees.calculate_protocol_fee_updown
    xelma_blockchain.Contract.Fees._read_protocol_fee_bps
    xelma_blockchain.Contract.Balances._set_balance xelma_blockchain.Contract.Fees.updown_fee_amount
    xelma_blockchain.Contract.Fees._read_fee_model xelma_blockchain.SettlementMath.Common.payout_add
    xelma_blockchain.Machine.checked_add xelma_blockchain.Int.◌+ℤ◌
    xelma_blockchain.Machine.checked_mul xelma_blockchain.Int.◌*ℤ◌
    xelma_blockchain.Contract.Fees.deduct_fee xelma_blockchain.Machine.checked_sub
    xelma_blockchain.Int.◌-ℤ◌ xelma_blockchain.Contract.Fees._collect_protocol_fee
    xelma_blockchain.Contract.Fees.collect_insurance_fee
    xelma_blockchain.Contract.Leaderboard.lifetime_user_stats
    xelma_blockchain.Contract.Leaderboard._current_season_id
    xelma_blockchain.Contract.Leaderboard._update_season_stats_win
    xelma_blockchain.Contract.Leaderboard._update_season_stats_loss
    xelma_blockchain.Contract.Leaderboard.lost xelma_blockchain.Contract.Leaderboard.won
    xelma_blockchain.Contract.Leaderboard.update_season
    xelma_blockchain.Contract.Leaderboard.season_user_stats_raw
    xelma_blockchain.Contract.Leaderboard.updated_index
    xelma_blockchain.Contract.Balances.pending_of
    xelma_blockchain.Contract.Balances._accumulate_pending
    xelma_blockchain.SettlementMath.UpDown.compute_updown_winner_payout
    xelma_blockchain.SettlementMath.Common.payout_mul xelma_blockchain.Machine.checked_u
    _update_stats_win _update_stats_loss value_or
    xelma_blockchain.Contract.Settlement.settle_participant write_treasury
    xelma_blockchain.Contract.State.put_in_round put
    xelma_blockchain.Contract.Leaderboard._update_leaderboards _persist_user_outcome
    xelma_blockchain.Contract.Leaderboard._update_season_leaderboards
    xelma_blockchain.Contract.Leaderboard.insert_ranked
    xelma_blockchain.Contract.Leaderboard.reinsert_sorted
    xelma_blockchain.Contract.Leaderboard.outranks xelma_blockchain.Contract.CashOut.without
    xelma_blockchain.Machine.checked_div xelma_blockchain.Contract.Fees.credit_insurance_fund
    xelma_blockchain.Contract.Fees.get_insurance_fund_balance
    xelma_blockchain.Contract.Fees.read_treasury write_insurance_fund
    xelma_blockchain.Contract.Settlement.settle_participants
    xelma_blockchain.Contract.Fees.get_insurance_split_bps
two_paid = refl

_record_winnings_indexed-Awarded_example :
    Awarded 3 (1 ∷ 2 ∷ []) bet_up (pos 40) (pos 30) two_bets (pos 2) two_settled
_record_winnings_indexed-Awarded_example =
    _record_winnings_indexed-Awarded (everyone_at 21) 3 (1 ∷ 2 ∷ []) bet_up 40 30 two_bets
      (omega arith) two_paid

-- The same round resolved at a higher price.
pub two_resolved :
    _resolve_updown_mode (everyone_at 21) (round_with up_down 40 30) 2_300 two_bets
    ≡ ok ((false, pos 2), two_settled)
unfolding _resolve_updown_mode xelma_blockchain.Contract.Resolution.resolve_by_direction
    xelma_blockchain.SettlementMath.Common.classify_price_direction
    xelma_blockchain.SettlementMath.Common.is_one_sided_pool
    xelma_blockchain.Contract.Balances.sort_addresses
    xelma_blockchain.Contract.Balances.insert_address _record_winnings_indexed
    xelma_blockchain.Contract.Fees._apply_protocol_fee_updown
    xelma_blockchain.Contract.Fees.calculate_protocol_fee_updown
    xelma_blockchain.Contract.Fees._read_protocol_fee_bps
    xelma_blockchain.Contract.Balances._set_balance xelma_blockchain.Contract.Fees.updown_fee_amount
    xelma_blockchain.Contract.Fees._read_fee_model xelma_blockchain.SettlementMath.Common.payout_add
    xelma_blockchain.Machine.checked_add xelma_blockchain.Int.◌+ℤ◌
    xelma_blockchain.Machine.checked_mul xelma_blockchain.Int.◌*ℤ◌
    xelma_blockchain.Contract.Fees.deduct_fee xelma_blockchain.Machine.checked_sub
    xelma_blockchain.Int.◌-ℤ◌ xelma_blockchain.Contract.Fees._collect_protocol_fee
    xelma_blockchain.Contract.Fees.collect_insurance_fee
    xelma_blockchain.Contract.Leaderboard.lifetime_user_stats
    xelma_blockchain.Contract.Leaderboard._current_season_id
    xelma_blockchain.Contract.Leaderboard._update_season_stats_win
    xelma_blockchain.Contract.Leaderboard._update_season_stats_loss
    xelma_blockchain.Contract.Leaderboard.lost xelma_blockchain.Contract.Leaderboard.won
    xelma_blockchain.Contract.Leaderboard.update_season
    xelma_blockchain.Contract.Leaderboard.season_user_stats_raw
    xelma_blockchain.Contract.Leaderboard.updated_index
    xelma_blockchain.Contract.Balances.pending_of
    xelma_blockchain.Contract.Balances._accumulate_pending
    xelma_blockchain.SettlementMath.UpDown.compute_updown_winner_payout
    xelma_blockchain.SettlementMath.Common.payout_mul xelma_blockchain.Machine.checked_u
    _update_stats_win _update_stats_loss value_or
    xelma_blockchain.Contract.Settlement.settle_participant write_treasury
    xelma_blockchain.Contract.State.put_in_round put
    xelma_blockchain.Contract.Leaderboard._update_leaderboards _persist_user_outcome
    xelma_blockchain.Contract.Leaderboard._update_season_leaderboards
    xelma_blockchain.Contract.Leaderboard.insert_ranked
    xelma_blockchain.Contract.Leaderboard.reinsert_sorted
    xelma_blockchain.Contract.Leaderboard.outranks xelma_blockchain.Contract.CashOut.without
    xelma_blockchain.Machine.checked_div xelma_blockchain.Contract.Fees.credit_insurance_fund
    xelma_blockchain.Contract.Fees.get_insurance_fund_balance
    xelma_blockchain.Contract.Fees.read_treasury write_insurance_fund
    xelma_blockchain.Contract.Settlement.settle_participants
    xelma_blockchain.Contract.Fees.get_insurance_split_bps
two_resolved = refl

_resolve_updown_mode-Resolved_example :
    Resolved (round_with up_down 40 30) 2_300 two_bets ((false, pos 2), two_settled)
_resolve_updown_mode-Resolved_example =
    _resolve_updown_mode-Resolved (everyone_at 21) (round_with up_down 40 30) 40 30 2_300 two_bets
      refl refl (omega arith) two_resolved
