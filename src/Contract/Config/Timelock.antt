-- ===== src/Contract/Config/Timelock.antt =====
-- Scheduled changes of contracts/src/config.rs: a change waits for its activation ledger, from which on
-- anybody may apply it, and before which the administrator may cancel it.
use xelma_blockchain.Prelude.{ℕ, ◌+◌, Option, leb, ltb, if◌then◌else◌}
use xelma_blockchain.Int.{ℤ}
use xelma_blockchain.Machine.{checked_u, u32_mod}
use xelma_blockchain.Errors
use xelma_blockchain.Errors.{Result, ok, err, ok_or, ◌>>=◌, ◌>>◌}
use xelma_blockchain.Contract.Settings.{
  ConfigChangeKind, ConfigChangePayload, PendingConfigChange, kind_code, windows, max_stake,
  max_user_round_exposure, max_pending_winnings, min_bet, oracle_stale_threshold,
  oracle_timestamp_skew, oracle_max_deviation_bps, protocol_fee_bps, pending_winnings_expiry,
}
use xelma_blockchain.Contract.State.{Env, Map, put, remove, is_some, Storage}
use xelma_blockchain.Contract.Admin.{
  _require_supported_schema, _ensure_not_paused, _ensure_normal_mode, admin_auth,
}
use xelma_blockchain.Contract.Insurance.{with_config}
use xelma_blockchain.Contract.Governance.{_validate_protocol_fee_bps}
use xelma_blockchain.Contract.Config.{
  config_timelock_ledgers, _validate_windows, _validate_max_stake, _validate_min_bet,
  _validate_oracle_stale_threshold, _validate_oracle_timestamp_skew,
  _validate_oracle_max_deviation_bps, _validate_pending_winnings_expiry, _apply_config_payload,
}

abbrev pub with_pending : Storage → Map PendingConfigChange → Storage
with_pending s pending = with_config s (record s.config { pending_config_change = pending })

unfoldable pub _schedule_config_change :
    Env → ConfigChangeKind → ConfigChangePayload → Storage → Result Storage
_schedule_config_change env kind payload s = do
  _admin ← admin_auth env s
  _ensure_not_paused s
  if is_some (s.config.pending_config_change (kind_code kind))
      then err Errors.round_already_active
      else (do
        activation_ledger ←
            ok_or (checked_u u32_mod (env.sequence + config_timelock_ledgers)) Errors.overflow
        ok (
            with_pending s (
              put s.config.pending_config_change (kind_code kind) (record {
                payload = payload;
                activation_ledger = activation_ledger;
                scheduled_at_ledger = env.sequence;
              }))))

-- The opening of a scheduling entry point: the schema, then the check of the value.
unfoldable pub schedule :
    Env → Result (Unit {0}) → ConfigChangeKind → ConfigChangePayload → Storage → Result Storage
schedule env valid kind payload s = do
  _v ← _require_supported_schema s
  valid
  _schedule_config_change env kind payload s

unfoldable pub schedule_windows : Env → ℕ → ℕ → Storage → Result Storage
unfolding schedule
schedule_windows env bet_ledgers run_ledgers s =
    schedule env (_validate_windows bet_ledgers run_ledgers) ConfigChangeKind.windows
      (windows bet_ledgers run_ledgers) s

unfoldable pub schedule_min_bet : Env → Option ℤ → Storage → Result Storage
unfolding schedule
schedule_min_bet env min_amount s =
    schedule env (_validate_min_bet min_amount) ConfigChangeKind.min_bet (min_bet min_amount) s

unfoldable pub schedule_max_stake : Env → Option ℤ → Storage → Result Storage
unfolding schedule
schedule_max_stake env max_amount s =
    schedule env (_validate_max_stake max_amount) ConfigChangeKind.max_stake (max_stake max_amount)
      s

unfoldable pub schedule_max_user_exposure : Env → Option ℤ → Storage → Result Storage
unfolding schedule
schedule_max_user_exposure env max_exposure s =
    schedule env (_validate_max_stake max_exposure) ConfigChangeKind.max_user_round_exposure
      (max_user_round_exposure max_exposure) s

unfoldable pub schedule_max_pending_winnings : Env → Option ℤ → Storage → Result Storage
unfolding schedule
schedule_max_pending_winnings env max_pending s =
    schedule env (_validate_max_stake max_pending) ConfigChangeKind.max_pending_winnings
      (max_pending_winnings max_pending) s

unfoldable pub schedule_oracle_stale_threshold : Env → ℕ → Storage → Result Storage
unfolding schedule
schedule_oracle_stale_threshold env seconds s =
    schedule env (_validate_oracle_stale_threshold seconds) ConfigChangeKind.oracle_stale_threshold
      (oracle_stale_threshold seconds) s

unfoldable pub schedule_oracle_deviation_bps : Env → Option ℕ → Storage → Result Storage
unfolding schedule
schedule_oracle_deviation_bps env bps s =
    schedule env (_validate_oracle_max_deviation_bps bps) ConfigChangeKind.oracle_max_deviation_bps
      (oracle_max_deviation_bps bps) s

unfoldable pub schedule_oracle_timestamp_skew : Env → ℕ → Storage → Result Storage
unfolding schedule
schedule_oracle_timestamp_skew env seconds s =
    schedule env (_validate_oracle_timestamp_skew seconds) ConfigChangeKind.oracle_timestamp_skew
      (oracle_timestamp_skew seconds) s

unfoldable pub schedule_protocol_fee_bps : Env → Option ℕ → Storage → Result Storage
unfolding schedule
schedule_protocol_fee_bps env bps s =
    schedule env (_validate_protocol_fee_bps bps) ConfigChangeKind.protocol_fee_bps
      (protocol_fee_bps bps) s

unfoldable pub schedule_pending_winnings_expiry : Env → ℕ → Storage → Result Storage
unfolding schedule
schedule_pending_winnings_expiry env ledgers s =
    schedule env (_validate_pending_winnings_expiry ledgers)
      ConfigChangeKind.pending_winnings_expiry (pending_winnings_expiry ledgers) s

unfoldable pub apply_scheduled_changes : Env → ConfigChangeKind → Storage → Result Storage
apply_scheduled_changes env kind s = do
  _v ← _require_supported_schema s
  _ensure_normal_mode s
  pending ← ok_or (s.config.pending_config_change (kind_code kind)) Errors.commitment_not_found
  if ltb env.sequence pending.activation_ledger then err Errors.round_not_ended else (do
    s' ← _apply_config_payload kind pending.payload s
    ok (with_pending s' (remove s'.config.pending_config_change (kind_code kind))))

unfoldable pub cancel_config_change : Env → ConfigChangeKind → Storage → Result Storage
cancel_config_change env kind s = do
  _v ← _require_supported_schema s
  _admin ← admin_auth env s
  _ensure_not_paused s
  pending ← ok_or (s.config.pending_config_change (kind_code kind)) Errors.commitment_not_found
  if leb pending.activation_ledger env.sequence
      then err Errors.round_not_cancellable
      else ok (with_pending s (remove s.config.pending_config_change (kind_code kind)))
