-- ===== src/Contract/Rounds.antt =====
-- The creation of a round (contracts/src/betting.rs, `create_round`).
use xelma_blockchain.Prelude.{ℕ, ◌+◌, ◌||◌, Option, some, ltb, ◌==◌, if◌then◌else◌}
use xelma_blockchain.Int.{pos}
use xelma_blockchain.Machine.{checked_u, u32_mod, u64_mod}
use xelma_blockchain.Errors
use xelma_blockchain.Errors.{Result, ok, err, ok_or, ◌>>=◌, ◌>>◌}
use xelma_blockchain.Contract.State.{
  Env, put, unwrap_or, is_some, Storage, Round, RoundMode, up_down, precision,
}
use xelma_blockchain.Contract.Admin.{_require_supported_schema, _ensure_not_paused, admin_auth}
use xelma_blockchain.Contract.Balances.{assert_no_active_round}
use xelma_blockchain.Contract.Betting.{with_rounds}

abbrev pub min_start_price : ℕ
min_start_price = 1

abbrev pub max_start_price : ℕ
max_start_price = 1_000_000_000_000_000_000

abbrev pub default_bet_window_ledgers : ℕ
default_bet_window_ledgers = 6

abbrev pub default_run_window_ledgers : ℕ
default_run_window_ledgers = 12

-- The checks of the arguments of `create_round`, and the mode they name.
unfoldable pub round_mode_of : ℕ → Option ℕ → Result RoundMode
round_mode_of start_price mode =
    let mode_value = unwrap_or mode 0 in
    if ltb start_price min_start_price || ltb max_start_price start_price
    then err Errors.invalid_start_price
    else if ltb 1 mode_value
    then err Errors.invalid_mode
    else ok (if mode_value == 0 then up_down else precision)

abbrev pub new_round : Env → ℕ → RoundMode → ℕ → ℕ → ℕ → Round
new_round env start_price round_mode round_id bet_end_ledger end_ledger = record {
  round_id = round_id;
  price_start = start_price;
  start_ledger = env.sequence;
  start_timestamp = env.timestamp;
  bet_end_ledger = bet_end_ledger;
  end_ledger = end_ledger;
  pool_up = pos 0;
  pool_down = pos 0;
  mode = round_mode;
}

unfoldable pub create_round : Env → ℕ → Option ℕ → Storage → Result Storage
create_round env start_price mode s = do
  _v ← _require_supported_schema s
  round_mode ← round_mode_of start_price mode
  _admin ← admin_auth env s
  _ensure_not_paused s
  assert_no_active_round s
  if is_some (s.rounds.round_start_ledger env.sequence)
      then err Errors.round_start_ledger_reused
      else (do
        round_id ←
            ok_or (checked_u u64_mod (unwrap_or s.rounds.last_round_id 0 + 1)) Errors.overflow
        bet_end_ledger ←
            ok_or
              (checked_u u32_mod
                (env.sequence + unwrap_or s.config.bet_window_ledgers default_bet_window_ledgers))
              Errors.overflow
        end_ledger ←
            ok_or
              (checked_u u32_mod
                (env.sequence + unwrap_or s.config.run_window_ledgers default_run_window_ledgers))
              Errors.overflow
        ok (
            with_rounds s (record s.rounds {
              last_round_id = some round_id;
              active_round =
                  some (new_round env start_price round_mode round_id bet_end_ledger end_ledger);
              round_start_ledger = put s.rounds.round_start_ledger env.sequence round_id;
            })))
