-- ===== src/Contract/Settings.antt =====
-- The settings of contracts/src/types.rs that contracts/src/config.rs changes, and the changes.
use xelma_blockchain.Prelude.{ℕ, Option}
use xelma_blockchain.Int.{ℤ}

pub data FeeModel : Type 0 where
  fee_on_pot fee_on_winnings : FeeModel

pub record RoundTemplate : Type 0 where
  pub start_price : ℕ
  pub mode : Option ℕ

pub data ConfigChangeKind : Type 0 where
  windows max_stake max_user_round_exposure max_pending_winnings : ConfigChangeKind
  oracle_stale_threshold oracle_max_deviation_bps protocol_fee_bps : ConfigChangeKind
  min_participants max_precision_participants mint_limit archive_retention : ConfigChangeKind
  close_buffer_ledgers oracle_timestamp_skew epoch_mint_budget : ConfigChangeKind
  pending_winnings_expiry precision_payout_policy min_bet dispute_ledgers : ConfigChangeKind
  fee_model early_cashout_bps : ConfigChangeKind

pub data ConfigChangePayload : Type 0 where
  windows : ℕ → ℕ → ConfigChangePayload
  max_stake max_user_round_exposure max_pending_winnings min_bet : Option ℤ → ConfigChangePayload
  oracle_stale_threshold oracle_timestamp_skew : ℕ → ConfigChangePayload
  oracle_max_deviation_bps protocol_fee_bps min_participants early_cashout_bps :
      Option ℕ → ConfigChangePayload
  max_precision_participants mint_limit archive_retention close_buffer_ledgers :
      ℕ → ConfigChangePayload
  epoch_mint_budget : ℤ → ConfigChangePayload
  pending_winnings_expiry precision_payout_policy dispute_ledgers : ℕ → ConfigChangePayload
  fee_model : FeeModel → ConfigChangePayload

pub record PendingConfigChange : Type 0 where
  pub payload : ConfigChangePayload
  pub activation_ledger : ℕ
  pub scheduled_at_ledger : ℕ

-- The numbers of the kinds.
abbrev pub kind_code : ConfigChangeKind → ℕ
kind_code ConfigChangeKind.windows = 0
kind_code ConfigChangeKind.max_stake = 1
kind_code ConfigChangeKind.max_user_round_exposure = 2
kind_code ConfigChangeKind.max_pending_winnings = 3
kind_code ConfigChangeKind.oracle_stale_threshold = 4
kind_code ConfigChangeKind.oracle_max_deviation_bps = 5
kind_code ConfigChangeKind.protocol_fee_bps = 6
kind_code ConfigChangeKind.min_participants = 7
kind_code ConfigChangeKind.max_precision_participants = 8
kind_code ConfigChangeKind.mint_limit = 9
kind_code ConfigChangeKind.archive_retention = 10
kind_code ConfigChangeKind.close_buffer_ledgers = 11
kind_code ConfigChangeKind.oracle_timestamp_skew = 12
kind_code ConfigChangeKind.epoch_mint_budget = 13
kind_code ConfigChangeKind.pending_winnings_expiry = 14
kind_code ConfigChangeKind.precision_payout_policy = 15
kind_code ConfigChangeKind.min_bet = 16
kind_code ConfigChangeKind.dispute_ledgers = 17
kind_code ConfigChangeKind.fee_model = 18
kind_code ConfigChangeKind.early_cashout_bps = 19

-- The settings beside those of the fees, the bets and the insurance; `none` where the key is absent.
pub record Limits : Type 0 where
  pub min_participants : Option ℕ
  pub oracle_stale_threshold : Option ℕ
  pub oracle_max_deviation_bps : Option ℕ
  pub oracle_timestamp_skew : Option ℕ
  pub mint_limit : Option ℕ
  pub epoch_mint_budget : Option ℤ
  pub archive_retention : Option ℕ
  pub precision_payout_policy : Option ℕ
  pub dispute_ledgers : Option ℕ
  pub round_template : Option RoundTemplate
