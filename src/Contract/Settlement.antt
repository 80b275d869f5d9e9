-- ===== src/Contract/Settlement.antt =====
-- Settlement over the participants of a round (contracts/src/settlement.rs): the refunds, and the winnings of an
-- up/down round. The round's id, the user and the sums that go into events alone are left out.
pub mod Awards
pub mod Payments
pub mod Refunds
pub mod Winnings
use xelma_blockchain.Prelude.{
  ℕ, Bool, true, false, Option, none, some, List, [], ◌∷◌, if◌then◌else◌,
}
use xelma_blockchain.Int.{ℤ, pos, eqb_ℤ}
use xelma_blockchain.Errors.{Result, ok, ◌>>=◌}
use xelma_blockchain.Contract.State.{
  Env, Storage, BetSide, side_is, UserPosition, UserRoundOutcome, UserOutcomeType, win, loss,
  refund,
}
use xelma_blockchain.Contract.Balances.{_accumulate_pending}
use xelma_blockchain.SettlementMath.Common.{payout_add}
use xelma_blockchain.SettlementMath.UpDown.{compute_updown_winner_payout}
use xelma_blockchain.Contract.Fees.{_apply_protocol_fee_updown}
use xelma_blockchain.Contract.Leaderboard.{_update_stats_win, _update_stats_loss}
use xelma_blockchain.Contract.CashOut.{_persist_user_outcome, side_code}

abbrev pub refund_outcome : ℕ → ℕ → UserPosition → UserRoundOutcome
refund_outcome round_mode user position = record {
  user = user;
  round_mode = round_mode;
  prediction_side = side_code position.side;
  predicted_price = 0;
  stake = position.amount;
  payout = position.amount;
  outcome = refund;
}

-- One participant: nothing is owed without a position.
unfoldable pub refund_participant : Env → ℕ → ℕ → ℕ → Option UserPosition → Storage → Result Storage
refund_participant env round_id round_mode user none s = ok s
refund_participant env round_id round_mode user (some position) s = do
  s' ← _accumulate_pending env user position.amount s
  ok (_persist_user_outcome round_id (refund_outcome round_mode user position) s')

unfoldable pub _record_refunds_indexed : Env → ℕ → ℕ → List ℕ → Storage → Result Storage
_record_refunds_indexed env round_id round_mode [] s = ok s
_record_refunds_indexed env round_id round_mode (user ∷ participants) s = do
  s' ← refund_participant env round_id round_mode user (s.rounds.position round_id user) s
  _record_refunds_indexed env round_id round_mode participants s'

abbrev pub result_outcome : ℕ → UserPosition → ℤ → UserOutcomeType → UserRoundOutcome
result_outcome user position payout outcome = record {
  user = user;
  round_mode = 0;
  prediction_side = side_code position.side;
  predicted_price = 0;
  stake = position.amount;
  payout = payout;
  outcome = outcome;
}

-- One participant of a side that has won or lost.
unfoldable pub settle_participant :
    Env → ℕ → BetSide → ℤ → ℤ → ℕ → Option UserPosition → Storage → Result Storage
settle_participant env round_id winning_side winning_pool total_distributable user none s = ok s
settle_participant env round_id winning_side winning_pool total_distributable user (some position)
      s =
    if side_is position.side winning_side
    then (do
      payout ← compute_updown_winner_payout position.amount winning_pool total_distributable
      s1 ← _accumulate_pending env user payout s
      s2 ← _update_stats_win user s1
      ok (_persist_user_outcome round_id (result_outcome user position payout win) s2))
    else (do
      s1 ← _update_stats_loss user s
      ok (_persist_user_outcome round_id (result_outcome user position (pos 0) loss) s1))

unfoldable pub settle_participants : Env → ℕ → BetSide → ℤ → ℤ → List ℕ → Storage → Result Storage
settle_participants env round_id winning_side winning_pool total_distributable [] s = ok s
settle_participants env round_id winning_side winning_pool total_distributable (user ∷ users) s = do
  s' ←
      settle_participant env round_id winning_side winning_pool total_distributable user
        (s.rounds.position round_id user) s
  settle_participants env round_id winning_side winning_pool total_distributable users s'

-- The fee, and the storage after.
unfoldable pub _record_winnings_indexed :
    Env → ℕ → List ℕ → BetSide → ℤ → ℤ → Storage → Result (ℤ × Storage)
_record_winnings_indexed env round_id participants winning_side winning_pool losing_pool s =
    if eqb_ℤ winning_pool (pos 0) then ok (pos 0, s) else (do
      ((dist_winning, dist_losing, fee_amount), s') ←
          _apply_protocol_fee_updown winning_pool losing_pool s
      total_distributable ← payout_add dist_winning dist_losing
      s'' ←
          settle_participants env round_id winning_side winning_pool total_distributable
            participants s'
      ok (fee_amount, s''))
