-- ===== src/Contract/State.antt =====
-- The persistent storage of contracts/src, by the types of contracts/src/types.rs, and the host
-- environment of a call. An address, a hash and a ledger number are ℕ. A key that a map does not
-- hold is `none`.
mod Types
use xelma_blockchain.Prelude.{
  ℕ, Bool, true, false, Option, none, some, List, ◌≡◌, ◌≢◌, arith, ◌==◌, if◌then◌else◌,
}
use xelma_blockchain.Int.{ℤ}
use xelma_blockchain.Errors.{Result, ok, panic}
use xelma_blockchain.Contract.Settings.{Limits, PendingConfigChange}
pub use xelma_blockchain.Contract.Settings.{FeeModel, fee_on_pot, fee_on_winnings}
pub use Types.*

-- What the host tells a call, and who has signed it.
pub record Env : Type 0 where
  pub sequence : ℕ
  pub timestamp : ℕ
  pub authorised : ℕ → Bool

-- `address.require_auth()` traps without the signature.
unfoldable pub require_auth : Env → ℕ → Result (Unit {0})
require_auth env addr = if env.authorised addr then ok tt else panic

abbrev pub Map {ℓ} : Type ℓ → Type ℓ
Map V = ℕ → Option V

module _ {ℓ} {V : Type ℓ} where
  unfoldable pub put : Map V → ℕ → V → Map V
  put m k v i = if i == k then some v else m i

  unfoldable pub remove : Map V → ℕ → Map V
  remove m k i = if i == k then none else m i

  -- The same for a key of a round and a user.
  unfoldable pub put_in_round : (ℕ → Map V) → ℕ → ℕ → V → ℕ → Map V
  put_in_round m round_id k v i = if i == round_id then put (m i) k v else m i

  unfoldable pub remove_in_round : (ℕ → Map V) → ℕ → ℕ → ℕ → Map V
  remove_in_round m round_id k i = if i == round_id then remove (m i) k else m i

abbrev pub unwrap_or {ℓ} : {A : Type ℓ} → Option A → A → A
unwrap_or none d = d
unwrap_or (some a) d = a

-- `has` of a key.
abbrev pub is_some {ℓ} : {A : Type ℓ} → Option A → Bool
is_some none = false
is_some (some a) = true

-- The settings of the administrator; `none` where the key is absent.
pub record Config : Type 0 where
  pub bet_window_ledgers : Option ℕ
  pub run_window_ledgers : Option ℕ
  pub close_buffer_ledgers : Option ℕ
  pub max_stake : Option ℤ
  pub min_bet : Option ℤ
  pub max_user_round_exposure : Option ℤ
  pub max_pending_winnings : Option ℤ
  pub max_precision_participants : Option ℕ
  pub protocol_fee_bps : Option ℕ
  pub fee_model : Option FeeModel
  pub early_cashout_bps : Option ℕ
  pub pending_winnings_expiry : Option ℕ
  pub gov_proposal_ttl_ledgers : Option ℕ
  pub insurance_split_bps : Option ℕ
  pub insurance_coverage_bps : Option ℕ
  pub insurance_eligible_events : Option (List ℕ)
  pub limits : Limits
  -- By the number of the kind.
  pub pending_config_change : Map PendingConfigChange

-- The lists of contracts/src/access_control.rs; an entry's value is always `true`.
pub record Access : Type 0 where
  pub enabled : Option Bool
  pub allowlisted : Map Bool
  pub denylisted : Map Bool

-- The rounds: the active one, and the stakes by round and user.
pub record Rounds : Type 0 where
  pub active_round : Option Round
  pub last_round_id : Option ℕ
  pub round_start_ledger : Map ℕ
  pub participants : Map (List ℕ)
  pub position : ℕ → Map UserPosition
  pub precision_position : ℕ → Map PrecisionPrediction
  pub precision_commitment : ℕ → Map PrecisionCommitment
  pub user_round_outcome : ℕ → Map UserRoundOutcome

pub record Governance : Type 0 where
  pub gov_approver : Option ℕ
  pub next_gov_proposal_id : Option ℕ
  pub gov_proposal : Map GovProposal
  pub constitution : Option ConstitutionMetadata
  pub next_amendment_id : Option ℕ
  pub amendments : Map Amendment

-- The users' money and the protocol's.
pub record Funds : Type 0 where
  pub balance : Map ℤ
  pub pending_winnings : Map ℤ
  pub pending_updated_at : Map ℕ
  pub protocol_fee_treasury : Option TreasuryValue
  pub insurance_fund : Option ℤ

-- Statistics and rankings, of all time and of the seasons.
pub record Rankings : Type 0 where
  pub user_stats : Map UserStats
  pub season_id : Option ℕ
  pub season_user_stats : ℕ → Map UserStats
  pub leaderboard_wins : Option (List ℕ)
  pub leaderboard_streak : Option (List ℕ)
  pub season_leaderboard_wins : Option (List ℕ)
  pub season_leaderboard_streak : Option (List ℕ)
  pub season_archive : Map SeasonArchive

-- What is kept of the rounds that are over, and the settlements that wait. An empty map of these is
-- the same as none: the source reads it so.
pub record Archives : Type 0 where
  pub archived_round : Map ArchivedRoundSummary
  pub recent_archived_round_ids : Option (List ℕ)
  pub user_archived_round_ids : Map (List ℕ)
  pub cancelled_round : Map Bool
  pub pending_disputes : Map PendingDisputeSettlement

pub record Storage : Type 0 where
  pub schema_version : Option ℕ
  pub admin : Option ℕ
  pub oracle : Option ℕ
  pub paused : Option RuntimeMode
  pub config : Config
  pub access : Access
  pub rounds : Rounds
  pub governance : Governance
  pub funds : Funds
  pub rankings : Rankings
  pub archives : Archives

module _ {ℓ} {V : Type ℓ} (m : Map V) (k : ℕ) where
  pub put-same : (v : V) → put m k v k ≡ some v
  unfolding put
  put-same v = ground arith

  pub put-other : (v : V) (i : ℕ) → i ≢ k → put m k v i ≡ m i
  unfolding put
  put-other v i h = ground arith

  pub remove-same : remove m k k ≡ none
  unfolding remove
  remove-same = ground arith

  pub remove-other : (i : ℕ) → i ≢ k → remove m k i ≡ m i
  unfolding remove
  remove-other i h = ground arith

  pub put-in_round-same :
      (rounds : ℕ → Map V) (round_id : ℕ) (v : V)
      → put_in_round rounds round_id k v round_id ≡ put (rounds round_id) k v
  unfolding put_in_round
  put-in_round-same rounds round_id v = ground arith
