-- ===== src/Contract/Config/Values.antt =====
-- What `_current_config_payload` of contracts/src/config.rs reads of a setting.
use xelma_blockchain.Prelude.{◌≡◌, ◌≢◌, refl, arith}
use xelma_blockchain.Int.{pos}
use xelma_blockchain.Contract.Settings.{
  ConfigChangeKind, ConfigChangePayload, kind_code, windows, max_stake, max_user_round_exposure,
  max_pending_winnings, min_bet, oracle_stale_threshold, oracle_timestamp_skew,
  oracle_max_deviation_bps, protocol_fee_bps, min_participants, early_cashout_bps,
  max_precision_participants, mint_limit, archive_retention, close_buffer_ledgers,
  epoch_mint_budget, pending_winnings_expiry, precision_payout_policy, dispute_ledgers, fee_model,
  fee_on_pot,
}
use xelma_blockchain.Contract.State.{unwrap_or, Config}
use xelma_blockchain.Contract.Predictions.{default_max_precision_participants}
use xelma_blockchain.Contract.Rounds.{default_bet_window_ledgers, default_run_window_ledgers}
use xelma_blockchain.Contract.Config.{write_payload, kind_of}

unfoldable pub _current_config_payload : Config → ConfigChangeKind → ConfigChangePayload
_current_config_payload c ConfigChangeKind.windows =
    windows (unwrap_or c.bet_window_ledgers default_bet_window_ledgers)
      (unwrap_or c.run_window_ledgers default_run_window_ledgers)
_current_config_payload c ConfigChangeKind.max_stake = max_stake c.max_stake
_current_config_payload c ConfigChangeKind.max_user_round_exposure =
    max_user_round_exposure c.max_user_round_exposure
_current_config_payload c ConfigChangeKind.max_pending_winnings =
    max_pending_winnings c.max_pending_winnings
_current_config_payload c ConfigChangeKind.oracle_stale_threshold =
    oracle_stale_threshold (unwrap_or c.limits.oracle_stale_threshold 3_600)
_current_config_payload c ConfigChangeKind.oracle_max_deviation_bps =
    oracle_max_deviation_bps c.limits.oracle_max_deviation_bps
_current_config_payload c ConfigChangeKind.protocol_fee_bps = protocol_fee_bps c.protocol_fee_bps
_current_config_payload c ConfigChangeKind.min_participants =
    min_participants c.limits.min_participants
_current_config_payload c ConfigChangeKind.max_precision_participants =
    max_precision_participants
      (unwrap_or c.max_precision_participants default_max_precision_participants)
_current_config_payload c ConfigChangeKind.mint_limit = mint_limit (unwrap_or c.limits.mint_limit 0)
_current_config_payload c ConfigChangeKind.archive_retention =
    archive_retention (unwrap_or c.limits.archive_retention 128)
_current_config_payload c ConfigChangeKind.close_buffer_ledgers =
    close_buffer_ledgers (unwrap_or c.close_buffer_ledgers 0)
_current_config_payload c ConfigChangeKind.oracle_timestamp_skew =
    oracle_timestamp_skew (unwrap_or c.limits.oracle_timestamp_skew 300)
_current_config_payload c ConfigChangeKind.epoch_mint_budget =
    epoch_mint_budget (unwrap_or c.limits.epoch_mint_budget (pos 0))
_current_config_payload c ConfigChangeKind.pending_winnings_expiry =
    pending_winnings_expiry (unwrap_or c.pending_winnings_expiry 0)
_current_config_payload c ConfigChangeKind.precision_payout_policy =
    precision_payout_policy (unwrap_or c.limits.precision_payout_policy 0)
_current_config_payload c ConfigChangeKind.min_bet = min_bet c.min_bet
_current_config_payload c ConfigChangeKind.dispute_ledgers =
    dispute_ledgers (unwrap_or c.limits.dispute_ledgers 0)
_current_config_payload c ConfigChangeKind.fee_model = fee_model (unwrap_or c.fee_model fee_on_pot)
_current_config_payload c ConfigChangeKind.early_cashout_bps = early_cashout_bps c.early_cashout_bps

-- What is written is read back.
pub current-write_payload :
    (p : ConfigChangePayload) (c : Config)
    → _current_config_payload (write_payload p c) (kind_of p) ≡ p
unfolding _current_config_payload write_payload kind_of
current-write_payload (windows bet run) c = refl
current-write_payload p c = refl

-- Every other kind reads as before.
pub current-write_payload_other :
    (p : ConfigChangePayload) (c : Config) (k : ConfigChangeKind)
    → kind_code k ≢ kind_code (kind_of p)
    → _current_config_payload (write_payload p c) k ≡ _current_config_payload c k
unfolding _current_config_payload write_payload kind_of
current-write_payload_other (windows bet run) c ConfigChangeKind.windows h = absurd (h refl)
current-write_payload_other p c k h = ground arith
