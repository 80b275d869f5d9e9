-- ===== src/Tests/Contract.antt =====
-- A small contract storage, and the properties of claims, fees and the treasury at it.
pub mod Settings
pub mod Leaderboard
pub mod Settlement
pub mod Stakes
pub mod Precisions
pub mod Amendments
pub mod Cancels
pub mod Endings
pub mod Proposals
use xelma_blockchain.Prelude.{
  ℕ, suc, ◌≡◌, refl, Bool, true, false, Option, none, some, List, [], ◌∷◌, ◌==◌, if◌then◌else◌,
}
use xelma_blockchain.Int.{ℤ, pos, ◌+ℤ◌}
use xelma_blockchain.Errors.{ok}
use xelma_blockchain.SettlementMath.Fees.{compute_updown_fee}
use xelma_blockchain.Contract.State as State
use xelma_blockchain.Contract.State.{
  Env, Map, Storage, Config, Access, Rounds, Funds, Round, up_down, fee_on_pot, fee_on_winnings,
}
use xelma_blockchain.Contract.Balances.{_set_balance}
use xelma_blockchain.Contract.Claims.{claim_winnings, claim_many, clear_pending}
use xelma_blockchain.Contract.Claims.Wealth.{Claimed, claim_winnings-Claimed, claim_winnings-once}
use xelma_blockchain.Contract.Claims.Batch.{NoRepeat, ClaimedAll, claim_many-ClaimedAll}
use xelma_blockchain.Contract.Fees.{
  calculate_protocol_fee_updown, _apply_protocol_fee_updown, _collect_protocol_fee, write_treasury,
  write_insurance_fund,
}
use xelma_blockchain.Contract.Fees.Collection.{protocol_funds}
use xelma_blockchain.Contract.Fees.Incidence.{
  calculate_protocol_fee_updown-compute_updown_fee, _apply_protocol_fee_updown-conserves,
}

-- Everybody signs, at ledger 10.
abbrev pub everyone_at : ℕ → Env
everyone_at ledger = record { sequence = ledger; timestamp = 1_000; authorised = λ user. true }

abbrev pub nothing : {V : Type 0} → Map V
nothing key = none

abbrev pub only : {V : Type 0} → ℕ → V → Map V
only key value i = if i == key then some value else none

abbrev pub open_config : Config
open_config = record {
  bet_window_ledgers = none;
  run_window_ledgers = none;
  close_buffer_ledgers = none;
  max_stake = none;
  min_bet = none;
  max_user_round_exposure = none;
  max_pending_winnings = none;
  max_precision_participants = none;
  protocol_fee_bps = some 300;
  fee_model = none;
  early_cashout_bps = some 1_000;
  pending_winnings_expiry = none;
  gov_proposal_ttl_ledgers = none;
  insurance_split_bps = some 5_000;
  insurance_coverage_bps = none;
  insurance_eligible_events = none;
  limits = record {
    min_participants = none;
    oracle_stale_threshold = none;
    oracle_max_deviation_bps = none;
    oracle_timestamp_skew = none;
    mint_limit = none;
    epoch_mint_budget = none;
    archive_retention = none;
    precision_payout_policy = none;
    dispute_ledgers = none;
    round_template = none;
  };
  pending_config_change = nothing;
}

abbrev pub no_rounds : Rounds
no_rounds = record {
  active_round = none;
  last_round_id = none;
  round_start_ledger = nothing;
  participants = nothing;
  position = λ round_id. nothing;
  precision_position = λ round_id. nothing;
  precision_commitment = λ round_id. nothing;
  user_round_outcome = λ round_id. nothing;
}

-- Administrator 8, approver 9; user 1 has 100 and 5 of winnings.
abbrev pub base : Storage
base = record {
  schema_version = some 3;
  admin = some 8;
  oracle = some 7;
  paused = none;
  config = open_config;
  access = record { enabled = none; allowlisted = nothing; denylisted = nothing };
  rounds = no_rounds;
  governance = record {
    gov_approver = some 9;
    next_gov_proposal_id = none;
    gov_proposal = nothing;
    constitution = none;
    next_amendment_id = none;
    amendments = nothing;
  };
  funds = record {
    balance = only 1 (pos 100);
    pending_winnings = only 1 (pos 5);
    pending_updated_at = only 1 2;
    protocol_fee_treasury = none;
    insurance_fund = none;
  };
  rankings = record {
    user_stats = nothing;
    season_id = none;
    season_user_stats = λ season. nothing;
    leaderboard_wins = none;
    leaderboard_streak = none;
    season_leaderboard_wins = none;
    season_leaderboard_streak = none;
    season_archive = nothing;
  };
  archives = record {
    archived_round = nothing;
    recent_archived_round_ids = none;
    user_archived_round_ids = nothing;
    cancelled_round = nothing;
    pending_disputes = nothing;
  };
}

abbrev claimed : Storage
claimed = _set_balance (clear_pending base 1) 1 (pos 105)

one_claims : claim_winnings (everyone_at 10) 1 base ≡ ok (pos 5, claimed)
unfolding claim_winnings xelma_blockchain.Contract.Admin._require_supported_schema
    State.require_auth xelma_blockchain.Contract.Admin._ensure_not_paused
    xelma_blockchain.Contract.Admin._policy_gate xelma_blockchain.Contract.Claims.claim_pending
    xelma_blockchain.Contract.Balances.pending_of xelma_blockchain.SettlementMath.Common.payout_add
    xelma_blockchain.Machine.checked_add ◌+ℤ◌ xelma_blockchain.Contract.Balances.balance
one_claims = refl

claim_winnings-Claimed_example : Claimed 1 base (pos 5) claimed
claim_winnings-Claimed_example = claim_winnings-Claimed (everyone_at 10) 1 base one_claims

claim_winnings-once_example : claim_winnings (everyone_at 10) 1 claimed ≡ ok (pos 0, claimed)
claim_winnings-once_example = claim_winnings-once (everyone_at 10) 1 base one_claims

batch_claims : claim_many (everyone_at 10) (2 ∷ 1 ∷ []) base ≡ ok (pos 0 ∷ pos 5 ∷ [], claimed)
unfolding claim_many xelma_blockchain.Contract.Admin._require_supported_schema
    xelma_blockchain.Contract.Admin._ensure_not_paused xelma_blockchain.Contract.Admin._policy_gate
    xelma_blockchain.Contract.Claims.has_repeat xelma_blockchain.Contract.Balances.sort_addresses
    xelma_blockchain.Contract.Claims.claim_each State.require_auth
    xelma_blockchain.Contract.Claims.claim_pending xelma_blockchain.Contract.Balances.pending_of
    xelma_blockchain.SettlementMath.Common.payout_add xelma_blockchain.Machine.checked_add ◌+ℤ◌
    xelma_blockchain.Contract.Balances.balance
batch_claims = refl

claim_many-ClaimedAll_example :
    NoRepeat (2 ∷ 1 ∷ []) × ClaimedAll (2 ∷ 1 ∷ []) base (pos 0 ∷ pos 5 ∷ []) claimed
claim_many-ClaimedAll_example =
    claim_many-ClaimedAll (everyone_at 10) (2 ∷ 1 ∷ []) base batch_claims

calculate_protocol_fee_updown-compute_updown_fee_example :
    calculate_protocol_fee_updown (some 300) fee_on_pot (pos 100) (pos 50)
    ≡ compute_updown_fee (pos 100) (pos 50) (some 300)
calculate_protocol_fee_updown-compute_updown_fee_example =
    calculate_protocol_fee_updown-compute_updown_fee (some 300) (pos 100) (pos 50)

taxed_winnings :
    calculate_protocol_fee_updown (some 300) fee_on_winnings (pos 100) (pos 50)
    ≡ ok (pos 100, pos 49, pos 1)
unfolding calculate_protocol_fee_updown xelma_blockchain.Contract.Fees.updown_fee_amount
    xelma_blockchain.Machine.checked_mul xelma_blockchain.Int.◌*ℤ◌
    xelma_blockchain.Contract.Fees.deduct_fee xelma_blockchain.Machine.checked_sub
    xelma_blockchain.Int.◌-ℤ◌
taxed_winnings = refl

abbrev taxed : Storage
taxed = write_treasury (write_insurance_fund base (pos 2)) (pos 2)

fee_taken :
    _apply_protocol_fee_updown (pos 100) (pos 50) base ≡ ok ((pos 100, pos 46, pos 4), taxed)
unfolding _apply_protocol_fee_updown calculate_protocol_fee_updown
    xelma_blockchain.Contract.Fees._read_protocol_fee_bps
    xelma_blockchain.Contract.Fees.updown_fee_amount xelma_blockchain.Contract.Fees._read_fee_model
    xelma_blockchain.SettlementMath.Common.payout_add xelma_blockchain.Machine.checked_add ◌+ℤ◌
    xelma_blockchain.Machine.checked_mul xelma_blockchain.Int.◌*ℤ◌
    xelma_blockchain.Contract.Fees.deduct_fee xelma_blockchain.Machine.checked_sub
    xelma_blockchain.Int.◌-ℤ◌ _collect_protocol_fee
    xelma_blockchain.Contract.Fees.collect_insurance_fee
    xelma_blockchain.Contract.Fees.get_insurance_split_bps xelma_blockchain.Machine.checked_div
    xelma_blockchain.Contract.Fees.credit_insurance_fund
    xelma_blockchain.Contract.Fees.get_insurance_fund_balance
    xelma_blockchain.Contract.Fees.read_treasury write_insurance_fund
fee_taken = refl

_apply_protocol_fee_updown-conserves_example :
    pos 100 +ℤ pos 46 +ℤ protocol_funds taxed ≡ pos 100 +ℤ pos 50 +ℤ protocol_funds base
_apply_protocol_fee_updown-conserves_example =
    _apply_protocol_fee_updown-conserves 100 50 base fee_taken

abbrev with_address : Storage
with_address = record base {
  funds = record base.funds { protocol_fee_treasury = some (State.address 6) };
}
