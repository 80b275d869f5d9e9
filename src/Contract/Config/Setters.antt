-- ===== src/Contract/Config/Setters.antt =====
-- The settings of contracts/src/config.rs that the administrator changes at once, the round template, and
-- the administrator's withdrawal of fees.
use xelma_blockchain.Prelude.{ℕ, ◌||◌, Option, none, some, ltb, if◌then◌else◌}
use xelma_blockchain.Int.{ℤ, pos, leb_ℤ}
use xelma_blockchain.Errors
use xelma_blockchain.Errors.{Result, ok, err, ok_or, ◌>>=◌, ◌>>◌}
use xelma_blockchain.Contract.Settings.{
  FeeModel, RoundTemplate, ConfigChangePayload, fee_model, close_buffer_ledgers, min_participants,
  max_precision_participants, precision_payout_policy, mint_limit, epoch_mint_budget,
  archive_retention, dispute_ledgers, early_cashout_bps,
}
use xelma_blockchain.Contract.State.{Env, Storage, unwrap_or, is_some}
use xelma_blockchain.Contract.Admin.{_require_supported_schema, _ensure_not_paused, admin_auth}
use xelma_blockchain.Contract.Insurance.{with_config, withdraw_from_treasury}
use xelma_blockchain.Contract.Fees.{read_treasury}
use xelma_blockchain.Contract.Rounds.{min_start_price, max_start_price, create_round}
use xelma_blockchain.Contract.Config.{validate_payload, write_payload}

-- The schema, the administrator's signature and the mode.
unfoldable pub admin_call : Env → Storage → Result (Unit {0})
admin_call env s = do
  _v ← _require_supported_schema s
  _admin ← admin_auth env s
  _ensure_not_paused s

-- A setter: the value is checked as in a scheduled change, and written at once.
unfoldable pub set_now : Env → ConfigChangePayload → Storage → Result Storage
unfolding admin_call
set_now env payload s = do
  admin_call env s
  validate_payload payload
  ok (with_config s (write_payload payload s.config))

unfoldable pub set_fee_model : Env → FeeModel → Storage → Result Storage
unfolding set_now
set_fee_model env model s = set_now env (fee_model model) s

unfoldable pub set_close_buffer_ledgers : Env → ℕ → Storage → Result Storage
unfolding set_now
set_close_buffer_ledgers env buffer_ledgers s = set_now env (close_buffer_ledgers buffer_ledgers) s

unfoldable pub set_min_participants : Env → Option ℕ → Storage → Result Storage
unfolding set_now
set_min_participants env min s = set_now env (min_participants min) s

unfoldable pub set_max_precision_participants : Env → ℕ → Storage → Result Storage
unfolding set_now
set_max_precision_participants env max s = set_now env (max_precision_participants max) s

unfoldable pub set_precision_payout_policy : Env → ℕ → Storage → Result Storage
unfolding set_now
set_precision_payout_policy env policy s = set_now env (precision_payout_policy policy) s

unfoldable pub set_mint_limit : Env → ℕ → Storage → Result Storage
unfolding set_now
set_mint_limit env limit s = set_now env (mint_limit limit) s

unfoldable pub set_epoch_mint_budget : Env → ℤ → Storage → Result Storage
unfolding set_now
set_epoch_mint_budget env budget s = set_now env (epoch_mint_budget budget) s

unfoldable pub set_archive_retention : Env → ℕ → Storage → Result Storage
unfolding set_now
set_archive_retention env limit s = set_now env (archive_retention limit) s

unfoldable pub set_dispute_ledgers : Env → ℕ → Storage → Result Storage
unfolding set_now
set_dispute_ledgers env ledgers s = set_now env (dispute_ledgers ledgers) s

unfoldable pub set_early_cashout_bps : Env → Option ℕ → Storage → Result Storage
unfolding set_now
set_early_cashout_bps env bps s = set_now env (early_cashout_bps bps) s

unfoldable pub check_mode : Option ℕ → Result (Unit {0})
check_mode none = ok tt
check_mode (some m) = if ltb 1 m then err Errors.invalid_mode else ok tt

unfoldable pub _validate_round_template : ℕ → Option ℕ → Result (Unit {0})
unfolding check_mode
_validate_round_template start_price mode =
    if ltb start_price min_start_price || ltb max_start_price start_price
    then err Errors.invalid_start_price
    else check_mode mode

abbrev pub with_template : Storage → Option RoundTemplate → Storage
with_template s template =
    with_config s
      (record s.config { limits = record s.config.limits { round_template = template } })

unfoldable pub set_round_template : Env → ℕ → Option ℕ → Storage → Result Storage
unfolding admin_call
set_round_template env start_price mode s = do
  admin_call env s
  _validate_round_template start_price mode
  ok (with_template s (some (record { start_price = start_price; mode = mode })))

unfoldable pub clear_round_template : Env → Storage → Result Storage
unfolding admin_call
clear_round_template env s = do
  admin_call env s
  if is_some s.config.limits.round_template
      then ok (with_template s none)
      else err Errors.commitment_not_found

-- contracts/src/betting.rs: a round by the template; its id.
unfoldable pub create_next_from_template : Env → Storage → Result (ℕ × Storage)
unfolding admin_call
create_next_from_template env s = do
  admin_call env s
  template ← ok_or s.config.limits.round_template Errors.no_round_template
  s' ← create_round env template.start_price template.mode s
  ok (unwrap_or s'.rounds.last_round_id 0, s')

-- Only while no approver for the dual control is set.
unfoldable pub withdraw_protocol_fee : Env → ℕ → ℤ → Storage → Result (ℤ × Storage)
withdraw_protocol_fee env recipient amount s = do
  _v ← _require_supported_schema s
  _admin ← admin_auth env s
  if is_some s.governance.gov_approver then err Errors.gov_unauthorized else (do
    _ensure_not_paused s
    if leb_ℤ amount (pos 0) then err Errors.invalid_bet_amount else (do
      current ← read_treasury s
      s' ← withdraw_from_treasury recipient amount current s
      ok (amount, s')))
