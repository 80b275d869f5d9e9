-- ===== src/Contract/CashOut.antt =====
-- The early cash-out of contracts/src/betting.rs (`cash_out_early`), and the outcome record of
-- contracts/src/settlement.rs that it writes.
pub mod Payments
pub mod PayOut
pub mod Checks
pub mod Exit
use xelma_blockchain.Prelude.{
  ℕ, Bool, true, false, not, ◌||◌, Option, none, some, List, [], ◌∷◌, ltb, leb, ◌==◌, if◌then◌else◌,
}
use xelma_blockchain.Int.{ℤ, pos, leb_ℤ, ltb_ℤ}
use xelma_blockchain.Machine.{checked_sub, checked_mul, quot}
use xelma_blockchain.Errors
use xelma_blockchain.Errors.{Result, ok, err, ok_or, ◌>>=◌, ◌>>◌}
use xelma_blockchain.SettlementMath.Common.{bps_denominator}
use xelma_blockchain.Contract.State.{
  Env, require_auth, put, put_in_round, remove_in_round, unwrap_or, is_some, Storage, Round,
  up_down, BetSide, bet_up, bet_down, UserPosition, UserRoundOutcome, UserOutcomeType, refund,
}
use xelma_blockchain.Contract.Admin.{_require_supported_schema, _ensure_normal_mode}
use xelma_blockchain.Contract.AccessControl.{_enforce_access_control}
use xelma_blockchain.Contract.Balances.{_accumulate_pending}
use xelma_blockchain.Contract.Fees.{_collect_protocol_fee}
use xelma_blockchain.Contract.Betting.{with_rounds, require_mode, participants_of}

-- The first outcome written for a user and a round stays.
unfoldable pub _persist_user_outcome : ℕ → UserRoundOutcome → Storage → Storage
_persist_user_outcome round_id outcome s =
    if is_some (s.rounds.user_round_outcome round_id outcome.user)
    then s
    else with_rounds s (record s.rounds {
      user_round_outcome = put_in_round s.rounds.user_round_outcome round_id outcome.user outcome;
    })

abbrev pub side_code : BetSide → ℕ
side_code bet_up = 0
side_code bet_down = 1

-- The penalty rate, where the feature is on.
unfoldable pub enabled_penalty : Storage → Result ℕ
enabled_penalty s = do
  penalty_bps ← ok_or s.config.early_cashout_bps Errors.early_cashout_disabled
  if penalty_bps == 0 || ltb 10_000 penalty_bps
      then err Errors.early_cashout_disabled
      else ok penalty_bps

unfoldable pub require_running : Env → Round → Result (Unit {0})
require_running env round =
    if ltb env.sequence round.bet_end_ledger || leb round.end_ledger env.sequence
    then err Errors.invalid_phase_for_cashout
    else ok tt

-- The user's position, with a positive stake.
unfoldable pub cashable_position : Storage → ℕ → ℕ → Result UserPosition
cashable_position s round_id user = do
  position ← ok_or (s.rounds.position round_id user) Errors.position_not_found
  if leb_ℤ position.amount (pos 0) then err Errors.invalid_bet_amount else ok position

-- What is forfeited and what is paid back.
unfoldable pub split_stake : ℤ → ℕ → Result (ℤ × ℤ)
split_stake stake penalty_bps = do
  product ← ok_or (checked_mul stake (pos penalty_bps)) Errors.overflow
  let forfeit = quot product bps_denominator
  cashout ← ok_or (checked_sub stake forfeit) Errors.overflow
  ok (forfeit, cashout)

unfoldable pub take_from_pool : BetSide → ℤ → Round → Result Round
take_from_pool bet_up stake round = do
  pool_up ← ok_or (checked_sub round.pool_up stake) Errors.overflow
  ok (record round { pool_up = pool_up })
take_from_pool bet_down stake round = do
  pool_down ← ok_or (checked_sub round.pool_down stake) Errors.overflow
  ok (record round { pool_down = pool_down })

unfoldable pub without : ℕ → List ℕ → List ℕ
without user [] = []
without user (addr ∷ addrs) =
    if not (addr == user) then addr ∷ without user addrs else without user addrs

-- The removal of the position and of the participant.
abbrev pub remove_position : ℕ → ℕ → Storage → Storage
remove_position round_id user s = with_rounds s (record s.rounds {
  position = remove_in_round s.rounds.position round_id user;
  participants = put s.rounds.participants round_id (without user (participants_of s round_id));
})

abbrev pub cashout_outcome : ℕ → UserPosition → ℤ → UserRoundOutcome
cashout_outcome user position cashout = record {
  user = user;
  round_mode = 0;
  prediction_side = side_code position.side;
  predicted_price = 0;
  stake = position.amount;
  payout = cashout;
  outcome = refund;
}

-- The payments, once the round without the stake is written.
unfoldable pub pay_out : Env → ℕ → ℤ → ℤ → Storage → Result Storage
pay_out env user forfeit cashout s = do
  s' ← if ltb_ℤ (pos 0) cashout then _accumulate_pending env user cashout s else ok s
  if ltb_ℤ (pos 0) forfeit then _collect_protocol_fee forfeit s' else ok s'

abbrev pub write_round : Round → Storage → Storage
write_round round s = with_rounds s (record s.rounds { active_round = some round })

unfoldable pub cash_out_early : Env → ℕ → Storage → Result Storage
cash_out_early env user s = do
  _v ← _require_supported_schema s
  require_auth env user
  _ensure_normal_mode s
  _enforce_access_control s user
  penalty_bps ← enabled_penalty s
  round ← ok_or s.rounds.active_round Errors.no_active_round
  require_mode up_down round Errors.wrong_mode_for_cashout
  require_running env round
  position ← cashable_position s round.round_id user
  (forfeit, cashout) ← split_stake position.amount penalty_bps
  round' ← take_from_pool position.side position.amount round
  s' ← pay_out env user forfeit cashout (write_round round' s)
  ok (
      remove_position round'.round_id user
        (_persist_user_outcome round'.round_id (cashout_outcome user position cashout) s'))
