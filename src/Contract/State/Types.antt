-- ===== src/Contract/State/Types.antt =====
-- The data of a round, of a user and of governance (contracts/src/types.rs), and the settlement that
-- waits for the end of a dispute (contracts/src/settlement.rs). An address and a hash are ℕ.
use xelma_blockchain.Prelude.{ℕ, Bool, true, false, Option, List}
use xelma_blockchain.Int.{ℤ}

pub data RoundMode : Type 0 where
  up_down precision : RoundMode

pub data RuntimeMode : Type 0 where
  normal claims_only fully_paused : RuntimeMode

pub data PolicyAction : Type 0 where
  round_mutation claim admin_config settlement : PolicyAction

pub data BetSide : Type 0 where
  bet_up bet_down : BetSide

abbrev pub side_is : BetSide → BetSide → Bool
side_is bet_up bet_up = true
side_is bet_down bet_down = true
side_is _ _ = false

pub record UserPosition : Type 0 where
  pub amount : ℤ
  pub side : BetSide

pub record PrecisionPrediction : Type 0 where
  pub user : ℕ
  pub predicted_price : ℕ
  pub amount : ℤ

pub record PrecisionCommitment : Type 0 where
  pub hash : ℕ
  pub amount : ℤ
  pub revealed : Bool

pub record Round : Type 0 where
  pub round_id : ℕ
  pub price_start : ℕ
  pub start_ledger : ℕ
  pub start_timestamp : ℕ
  pub bet_end_ledger : ℕ
  pub end_ledger : ℕ
  pub pool_up : ℤ
  pub pool_down : ℤ
  pub mode : RoundMode

pub data UserOutcomeType : Type 0 where
  win loss refund cancelled_round void : UserOutcomeType

pub record UserRoundOutcome : Type 0 where
  pub user : ℕ
  pub round_mode : ℕ
  pub prediction_side : ℕ
  pub predicted_price : ℕ
  pub stake : ℤ
  pub payout : ℤ
  pub outcome : UserOutcomeType

pub record UserStats : Type 0 where
  pub total_wins : ℕ
  pub total_losses : ℕ
  pub current_streak : ℕ
  pub best_streak : ℕ

pub record SeasonLeaderboardEntry : Type 0 where
  pub user : ℕ
  pub wins : ℕ
  pub best_streak : ℕ

pub record SeasonArchive : Type 0 where
  pub season_id : ℕ
  pub ended_at_ledger : ℕ
  pub wins : List SeasonLeaderboardEntry
  pub streak : List SeasonLeaderboardEntry
  pub participant_count : ℕ

pub data GovProposalStatus : Type 0 where
  pending approved executed cancelled expired : GovProposalStatus

pub data GovAction : Type 0 where
  pause_protocol unpause_protocol : GovAction
  set_protocol_fee_bps : Option ℕ → GovAction
  withdraw_protocol_fee : ℕ → ℤ → GovAction
  set_treasury_address set_admin set_oracle : ℕ → GovAction
  withdraw_insurance_fund : ℕ → ℤ → GovAction
  set_insurance_split_bps set_insurance_coverage_bps : ℕ → GovAction

pub record GovProposal : Type 0 where
  pub id : ℕ
  pub proposer : ℕ
  pub approver : Option ℕ
  pub action : GovAction
  pub created_at_ledger : ℕ
  pub expires_at_ledger : ℕ
  pub status : GovProposalStatus

pub data AmendmentStatus : Type 0 where
  pending vetoed activation_ready activated expired : AmendmentStatus

pub record Amendment : Type 0 where
  pub id : ℕ
  pub proposer : ℕ
  pub parameter_name : ℕ
  pub new_value : ℕ
  pub created_at_ledger : ℕ
  pub veto_deadline_ledger : ℕ
  pub activation_deadline_ledger : ℕ
  pub status : AmendmentStatus

pub record ConstitutionMetadata : Type 0 where
  pub veto_window_ledgers : ℕ
  pub timelock_ledgers : ℕ
  pub dual_approval_required : Bool
  pub established_at_ledger : ℕ

-- What the `ProtocolFeeTreasury` key holds: a fee total, or the address that one governance action
-- writes under the same key.
pub data TreasuryValue : Type 0 where
  fees : ℤ → TreasuryValue
  address : ℕ → TreasuryValue

-- The discriminants are not used but in events.
pub data RoundArchiveStatus : Type 0 where
  resolved cancelled fallback_refund voided : RoundArchiveStatus

pub record ArchivedRoundSummary : Type 0 where
  pub round_id : ℕ
  pub price_start : ℕ
  pub price_final : ℕ
  pub mode : RoundMode
  pub status : RoundArchiveStatus
  pub pool_up : ℤ
  pub pool_down : ℤ
  pub participant_count : ℕ
  pub settled_at_ledger : ℕ

pub record PendingDisputeSettlement : Type 0 where
  pub round : Round
  pub final_price : ℕ
  pub confidence : Option ℕ
  pub resolved_at_ledger : ℕ
  pub deadline_ledger : ℕ
