-- ===== src/Contract/Config.antt =====
-- The settings of contracts/src/config.rs: their validation, how a change is written and how the value is
-- read back.
pub mod Timelock
pub mod Setters
pub mod Values
pub mod Delay
pub mod Activation
use xelma_blockchain.Prelude.{
  ℕ, Bool, true, false, not, ◌&&◌, ◌||◌, Option, none, some, ltb, leb, ◌==◌, if◌then◌else◌,
}
use xelma_blockchain.Int.{ℤ, pos, ltb_ℤ}
use xelma_blockchain.Errors
use xelma_blockchain.Errors.{Result, ok, err, ◌>>=◌, ◌>>◌}
use xelma_blockchain.Contract.Settings.{
  ConfigChangeKind, ConfigChangePayload, kind_code, windows, max_stake, max_user_round_exposure,
  max_pending_winnings, min_bet, oracle_stale_threshold, oracle_timestamp_skew,
  oracle_max_deviation_bps, protocol_fee_bps, min_participants, early_cashout_bps,
  max_precision_participants, mint_limit, archive_retention, close_buffer_ledgers,
  epoch_mint_budget, pending_winnings_expiry, precision_payout_policy, dispute_ledgers, fee_model,
}
use xelma_blockchain.Contract.State.{unwrap_or, Storage, Config}
use xelma_blockchain.Contract.Predictions.{default_max_precision_participants}
use xelma_blockchain.Contract.Rounds.{default_bet_window_ledgers, default_run_window_ledgers}
use xelma_blockchain.Contract.Fees.{_read_fee_model}
use xelma_blockchain.Contract.Insurance.{with_config}
use xelma_blockchain.Contract.Governance.{max_protocol_fee_bps, _validate_protocol_fee_bps}

abbrev pub config_timelock_ledgers : ℕ
config_timelock_ledgers = 1_440

-- Whether a number lies in a range, ends included.
abbrev pub in_range : ℕ → ℕ → ℕ → Bool
in_range lo hi n = leb lo n && leb n hi

unfoldable pub _validate_pending_winnings_expiry : ℕ → Result (Unit {0})
_validate_pending_winnings_expiry ledgers =
    if not (ledgers == 0) && (ltb ledgers 128 || ltb 1_000_000 ledgers)
    then err Errors.invalid_duration
    else ok tt

unfoldable pub _validate_windows : ℕ → ℕ → Result (Unit {0})
_validate_windows bet_ledgers run_ledgers =
    if bet_ledgers == 0 || run_ledgers == 0
    then err Errors.invalid_duration
    else if ltb 1_440 bet_ledgers || ltb 2_880 run_ledgers
    then err Errors.window_out_of_range
    else if leb run_ledgers bet_ledgers
    then err Errors.invalid_duration
    else ok tt

unfoldable pub _validate_close_buffer_ledgers : ℕ → Result (Unit {0})
_validate_close_buffer_ledgers buffer_ledgers =
    if ltb 1_440 buffer_ledgers then err Errors.window_out_of_range else ok tt

abbrev pub min_cap_value : ℤ
min_cap_value = pos 1

unfoldable pub _validate_max_stake : Option ℤ → Result (Unit {0})
_validate_max_stake none = ok tt
_validate_max_stake (some v) =
    if ltb_ℤ v min_cap_value then err Errors.invalid_bet_amount else ok tt

unfoldable pub _validate_min_bet : Option ℤ → Result (Unit {0})
_validate_min_bet none = ok tt
_validate_min_bet (some v) = if ltb_ℤ v min_cap_value then err Errors.invalid_bet_amount else ok tt

unfoldable pub _validate_oracle_stale_threshold : ℕ → Result (Unit {0})
_validate_oracle_stale_threshold seconds =
    if not (in_range 60 86_400 seconds) then err Errors.invalid_duration else ok tt

unfoldable pub _validate_oracle_timestamp_skew : ℕ → Result (Unit {0})
_validate_oracle_timestamp_skew seconds =
    if not (in_range 0 86_400 seconds) then err Errors.invalid_duration else ok tt

unfoldable pub _validate_oracle_max_deviation_bps : Option ℕ → Result (Unit {0})
_validate_oracle_max_deviation_bps none = ok tt
_validate_oracle_max_deviation_bps (some v) =
    if v == 0 || ltb 100_000 v then err Errors.window_out_of_range else ok tt

-- A number between 1 and a limit, where there is one.
abbrev pub check_some : ℕ → Errors.ContractError → Option ℕ → Result (Unit {0})
check_some limit e none = ok tt
check_some limit e (some v) = if v == 0 || ltb limit v then err e else ok tt

-- The checks of the arms of `_apply_config_payload`, and of the setters of the same values.
unfoldable pub validate_payload : ConfigChangePayload → Result (Unit {0})
validate_payload (windows bet run) = _validate_windows bet run
validate_payload (max_stake max) = _validate_max_stake max
validate_payload (close_buffer_ledgers buffer) = _validate_close_buffer_ledgers buffer
validate_payload (max_user_round_exposure max) = _validate_max_stake max
validate_payload (max_pending_winnings max) = _validate_max_stake max
validate_payload (oracle_stale_threshold seconds) = _validate_oracle_stale_threshold seconds
validate_payload (oracle_max_deviation_bps bps) = _validate_oracle_max_deviation_bps bps
validate_payload (oracle_timestamp_skew seconds) = _validate_oracle_timestamp_skew seconds
validate_payload (pending_winnings_expiry ledgers) = _validate_pending_winnings_expiry ledgers
validate_payload (min_bet min) = _validate_min_bet min
validate_payload (protocol_fee_bps bps) = _validate_protocol_fee_bps bps
validate_payload (precision_payout_policy policy) =
    if ltb 1 policy then err Errors.invalid_mode else ok tt
validate_payload (dispute_ledgers ledgers) =
    if ltb 120_960 ledgers then err Errors.window_out_of_range else ok tt
validate_payload (fee_model model) = ok tt
validate_payload (epoch_mint_budget budget) =
    if ltb_ℤ budget (pos 0) then err Errors.invalid_bet_amount else ok tt
validate_payload (mint_limit limit) = ok tt
validate_payload (archive_retention limit) =
    if not (in_range 1 10_000 limit) then err Errors.window_out_of_range else ok tt
validate_payload (min_participants min) = check_some 10_000 Errors.invalid_min_participants min
validate_payload (max_precision_participants max) =
    if max == 0 || ltb 10_000 max then err Errors.invalid_precision_cap else ok tt
validate_payload (early_cashout_bps bps) =
    check_some max_protocol_fee_bps Errors.invalid_protocol_fee_bps bps

-- The writes of the arms: `none` removes the key.
unfoldable pub write_payload : ConfigChangePayload → Config → Config
write_payload (windows bet run) c = record c {
  bet_window_ledgers = some bet;
  run_window_ledgers = some run;
}
write_payload (max_stake max) c = record c { max_stake = max }
write_payload (close_buffer_ledgers buffer) c = record c { close_buffer_ledgers = some buffer }
write_payload (max_user_round_exposure max) c = record c { max_user_round_exposure = max }
write_payload (max_pending_winnings max) c = record c { max_pending_winnings = max }
write_payload (oracle_stale_threshold seconds) c = record c {
  limits = record c.limits { oracle_stale_threshold = some seconds };
}
write_payload (oracle_max_deviation_bps bps) c = record c {
  limits = record c.limits { oracle_max_deviation_bps = bps };
}
write_payload (oracle_timestamp_skew seconds) c = record c {
  limits = record c.limits { oracle_timestamp_skew = some seconds };
}
write_payload (pending_winnings_expiry ledgers) c = record c {
  pending_winnings_expiry = some ledgers;
}
write_payload (min_bet min) c = record c { min_bet = min }
write_payload (protocol_fee_bps bps) c = record c { protocol_fee_bps = bps }
write_payload (precision_payout_policy policy) c = record c {
  limits = record c.limits { precision_payout_policy = some policy };
}
write_payload (dispute_ledgers ledgers) c = record c {
  limits = record c.limits { dispute_ledgers = some ledgers };
}
write_payload (fee_model model) c = record c { fee_model = some model }
write_payload (epoch_mint_budget budget) c = record c {
  limits = record c.limits { epoch_mint_budget = some budget };
}
write_payload (mint_limit limit) c = record c {
  limits = record c.limits { mint_limit = some limit };
}
write_payload (archive_retention limit) c = record c {
  limits = record c.limits { archive_retention = some limit };
}
write_payload (min_participants min) c = record c {
  limits = record c.limits { min_participants = min };
}
write_payload (max_precision_participants max) c = record c {
  max_precision_participants = some max;
}
write_payload (early_cashout_bps bps) c = record c { early_cashout_bps = bps }

-- The kind whose arm takes the payload.
unfoldable pub kind_of : ConfigChangePayload → ConfigChangeKind
kind_of (windows bet run) = ConfigChangeKind.windows
kind_of (max_stake max) = ConfigChangeKind.max_stake
kind_of (close_buffer_ledgers buffer) = ConfigChangeKind.close_buffer_ledgers
kind_of (max_user_round_exposure max) = ConfigChangeKind.max_user_round_exposure
kind_of (max_pending_winnings max) = ConfigChangeKind.max_pending_winnings
kind_of (oracle_stale_threshold seconds) = ConfigChangeKind.oracle_stale_threshold
kind_of (oracle_max_deviation_bps bps) = ConfigChangeKind.oracle_max_deviation_bps
kind_of (oracle_timestamp_skew seconds) = ConfigChangeKind.oracle_timestamp_skew
kind_of (pending_winnings_expiry ledgers) = ConfigChangeKind.pending_winnings_expiry
kind_of (min_bet min) = ConfigChangeKind.min_bet
kind_of (protocol_fee_bps bps) = ConfigChangeKind.protocol_fee_bps
kind_of (precision_payout_policy policy) = ConfigChangeKind.precision_payout_policy
kind_of (dispute_ledgers ledgers) = ConfigChangeKind.dispute_ledgers
kind_of (fee_model model) = ConfigChangeKind.fee_model
kind_of (epoch_mint_budget budget) = ConfigChangeKind.epoch_mint_budget
kind_of (mint_limit limit) = ConfigChangeKind.mint_limit
kind_of (archive_retention limit) = ConfigChangeKind.archive_retention
kind_of (min_participants min) = ConfigChangeKind.min_participants
kind_of (max_precision_participants max) = ConfigChangeKind.max_precision_participants
kind_of (early_cashout_bps bps) = ConfigChangeKind.early_cashout_bps

-- A payload of another kind is refused.
unfoldable pub _apply_config_payload :
    ConfigChangeKind → ConfigChangePayload → Storage → Result Storage
_apply_config_payload kind payload s =
    if kind_code kind == kind_code (kind_of payload)
    then (do validate_payload payload; ok (with_config s (write_payload payload s.config)))
    else err Errors.invalid_mode
