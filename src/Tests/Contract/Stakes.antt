-- ===== src/Tests/Contract/Stakes.antt =====
-- Bets, cash-outs and reveals of contracts/src/betting.rs at a small storage.
use xelma_blockchain.Prelude.{ℕ, ◌≡◌, refl, Bool, true, false, some, List, [], ◌∷◌, ◌+◌}
use xelma_blockchain.Int.{ℤ, pos}
use xelma_blockchain.Errors.{ok}
use xelma_blockchain.Contract.State.{
  put, fees, Storage, Round, RoundMode, up_down, precision, bet_up, bet_down, UserPosition,
  PrecisionCommitment,
}
use xelma_blockchain.Contract.Balances.{_set_balance, with_funds}
use xelma_blockchain.Contract.Betting.{place_bet, write_bet, with_rounds}
use xelma_blockchain.Contract.Betting.Placement.{Placed, place_bet-Placed}
use xelma_blockchain.Contract.Betting.Pools.{Backed, place_bet-Backed}
use xelma_blockchain.Contract.CashOut.{
  cash_out_early, write_round, remove_position, _persist_user_outcome, cashout_outcome,
}
use xelma_blockchain.Contract.CashOut.Checks.{Exited}
use xelma_blockchain.Contract.CashOut.Exit.{cash_out_early-conserves}
use xelma_blockchain.Contract.Predictions.{reveal_prediction, write_prediction, write_commitment}
use xelma_blockchain.Contract.Predictions.Reveal.{Revealed, reveal_prediction-Revealed}
use xelma_blockchain.Tests.Contract.{everyone_at, only, base, no_rounds}

-- Round 3, from ledger 8 on; bets until 14, the end at 20.
abbrev pub round_with : RoundMode → ℕ → ℕ → Round
round_with mode pool_up pool_down = record {
  round_id = 3;
  price_start = 2_297;
  start_ledger = 8;
  start_timestamp = 900;
  bet_end_ledger = 14;
  end_ledger = 20;
  pool_up = pos pool_up;
  pool_down = pos pool_down;
  mode = mode;
}

-- User 2 has staked 30 on the price going down.
abbrev pub one_bet : Storage
one_bet = with_rounds base (record no_rounds {
  active_round = some (round_with up_down 0 30);
  participants = only 3 (2 ∷ []);
  position = λ round_id. only 2 (record { amount = pos 30; side = bet_down });
})

abbrev pub two_bets : Storage
two_bets = write_bet 1 (pos 40) bet_up (round_with up_down 40 30) (_set_balance one_bet 1 (pos 60))

one_bets : place_bet (everyone_at 10) 1 (pos 40) bet_up one_bet ≡ ok two_bets
unfolding place_bet xelma_blockchain.Contract.Admin._require_supported_schema
    xelma_blockchain.Contract.State.require_auth xelma_blockchain.Contract.Admin._ensure_normal_mode
    xelma_blockchain.Contract.Admin._policy_gate
    xelma_blockchain.Contract.AccessControl._enforce_access_control
    xelma_blockchain.Contract.Betting.amount_checks
    xelma_blockchain.Contract.Balances._enforce_min_bet
    xelma_blockchain.Contract.Betting._enforce_user_round_exposure
    xelma_blockchain.Contract.Betting.require_mode xelma_blockchain.Contract.Betting.window_checks
    xelma_blockchain.Contract.Betting.require_balance xelma_blockchain.Contract.Balances.balance
    xelma_blockchain.Contract.Betting.deduct_balance xelma_blockchain.Machine.checked_sub
    xelma_blockchain.Int.◌-ℤ◌ xelma_blockchain.Contract.Betting.add_to_pool
    xelma_blockchain.Machine.checked_add xelma_blockchain.Int.◌+ℤ◌
one_bets = refl

place_bet-Placed_example : Placed (everyone_at 10) 1 (pos 40) bet_up one_bet two_bets
place_bet-Placed_example = place_bet-Placed (everyone_at 10) 1 (pos 40) bet_up one_bet one_bets

one_bet-Backed : Backed one_bet (round_with up_down 0 30)
unfolding xelma_blockchain.Int.◌+ℤ◌
one_bet-Backed = record { up_pool = refl; down_pool = refl; placed = (refl, tt) }

place_bet-Backed_example :
    (round : Round) × (two_bets.rounds.active_round ≡ some round) × Backed two_bets round
place_bet-Backed_example =
    place_bet-Backed (everyone_at 10) 1 (pos 40) bet_up one_bet (round_with up_down 0 30) refl
      one_bet-Backed one_bets

-- User 2 leaves: a tenth of the stake is forfeited, half of that goes to the insurance fund.
abbrev exit_paid : Storage
exit_paid = with_funds (write_round (round_with up_down 0 0) one_bet) (record one_bet.funds {
  pending_winnings = put one_bet.funds.pending_winnings 2 (pos 27);
  pending_updated_at = put one_bet.funds.pending_updated_at 2 15;
  protocol_fee_treasury = some (fees (pos 2));
  insurance_fund = some (pos 1);
})

abbrev two_left : Storage
two_left = remove_position 3 2 (
    _persist_user_outcome 3
      (cashout_outcome 2 (record { amount = pos 30; side = bet_down }) (pos 27)) exit_paid)

two_exits : cash_out_early (everyone_at 15) 2 one_bet ≡ ok two_left
unfolding cash_out_early xelma_blockchain.Contract.Admin._require_supported_schema
    xelma_blockchain.Contract.State.require_auth xelma_blockchain.Contract.Admin._ensure_normal_mode
    xelma_blockchain.Contract.Admin._policy_gate
    xelma_blockchain.Contract.AccessControl._enforce_access_control
    xelma_blockchain.Contract.CashOut.enabled_penalty xelma_blockchain.Contract.Betting.require_mode
    xelma_blockchain.Contract.CashOut.require_running
    xelma_blockchain.Contract.CashOut.cashable_position
    xelma_blockchain.Contract.CashOut.split_stake xelma_blockchain.Machine.checked_mul
    xelma_blockchain.Int.◌*ℤ◌ xelma_blockchain.Machine.checked_sub xelma_blockchain.Int.◌-ℤ◌
    xelma_blockchain.Contract.CashOut.take_from_pool xelma_blockchain.Contract.CashOut.pay_out
    xelma_blockchain.Contract.Balances._accumulate_pending
    xelma_blockchain.Contract.Balances.pending_of
    xelma_blockchain.Contract.Fees._collect_protocol_fee
    xelma_blockchain.Contract.Fees.collect_insurance_fee
    xelma_blockchain.Contract.Fees.credit_insurance_fund
    xelma_blockchain.Contract.Fees.get_insurance_fund_balance
    xelma_blockchain.Contract.Fees.get_insurance_split_bps
    xelma_blockchain.Contract.Fees.read_treasury xelma_blockchain.Contract.Fees.write_insurance_fund
    xelma_blockchain.Contract.Fees.write_treasury xelma_blockchain.SettlementMath.Common.payout_add
    xelma_blockchain.Machine.checked_add xelma_blockchain.Machine.checked_div
    xelma_blockchain.Int.◌+ℤ◌
two_exits = refl

cash_out_early-conserves_example : Exited (everyone_at 15) 2 one_bet two_left
cash_out_early-conserves_example = cash_out_early-conserves (everyone_at 15) 2 one_bet two_exits

-- In place of SHA-256.
abbrev test_hash : ℕ → List ℕ → ℕ
test_hash price salt = price + 1

abbrev commitment_of : Bool → PrecisionCommitment
commitment_of revealed = record { hash = 2_301; amount = pos 25; revealed = revealed }

abbrev committed : Storage
committed = with_rounds base (record no_rounds {
  active_round = some (round_with precision 0 0);
  participants = only 3 (1 ∷ []);
  precision_commitment = λ round_id. only 1 (commitment_of false);
})

abbrev opened : Storage
opened =
    write_prediction 3 1 (record { user = 1; predicted_price = 2_300; amount = pos 25 })
      (write_commitment 3 1 (commitment_of true) committed)

one_reveals :
    reveal_prediction test_hash (everyone_at 15) 1 2_300 (4 ∷ 9 ∷ []) committed ≡ ok opened
unfolding reveal_prediction xelma_blockchain.Contract.State.require_auth
    xelma_blockchain.Contract.Admin._ensure_normal_mode xelma_blockchain.Contract.Admin._policy_gate
    xelma_blockchain.Contract.AccessControl._enforce_access_control
    xelma_blockchain.Contract.Predictions.salt_has_minimum_entropy
    xelma_blockchain.Contract.Predictions.saw_nonzero
    xelma_blockchain.Contract.Predictions.saw_different
    xelma_blockchain.Contract.Betting.require_mode
    xelma_blockchain.Contract.Predictions.reveal_window xelma_blockchain.Contract.Predictions.opens
one_reveals = refl

reveal_prediction-Revealed_example :
    Revealed test_hash (everyone_at 15) 1 2_300 (4 ∷ 9 ∷ []) committed opened
reveal_prediction-Revealed_example =
    reveal_prediction-Revealed test_hash (everyone_at 15) 1 2_300 (4 ∷ 9 ∷ []) committed one_reveals
