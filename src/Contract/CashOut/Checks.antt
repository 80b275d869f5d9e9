-- ===== src/Contract/CashOut/Checks.antt =====
-- `cash_out_early` of contracts/src/betting.rs takes a stake out of its pool: what its checks ensure.
use xelma_blockchain.Prelude.{ℕ, ◌≤◌, ◌<◌, ◌≡◌, ◌≢◌, refl, false, none, some, arith}
use xelma_blockchain.Int.{ℤ, pos, negsuc, ◌+ℤ◌, ◌-ℤ◌, leb_ℤ, int_laws}
use xelma_blockchain.Machine.{checked_sub}
use xelma_blockchain.Machine.Laws.{checked_sub-eq-some}
use xelma_blockchain.Errors.{Ensures, Ensures-if, Ensures-ok_or}
use xelma_blockchain.Contract.State.{
  Env, Storage, Round, BetSide, bet_up, bet_down, UserPosition, UserRoundOutcome,
}
use xelma_blockchain.Contract.Balances.{balance, pending_of}
use xelma_blockchain.Contract.Fees.Collection.{protocol_funds}
use xelma_blockchain.Contract.Betting.Placement.{pool, other_side}
use xelma_blockchain.Contract.CashOut.{
  take_from_pool, enabled_penalty, require_running, cashable_position, _persist_user_outcome,
}
use xelma_blockchain.Contract.CashOut.Payments.{Shares}

-- The round without the stake.
pub record PoolShrunk (side : BetSide) (stake : ℤ) (round round' : Round) : Type 0 where
  pub shrinks : pool side round' +ℤ stake ≡ pool side round
  pub keeps_other : pool (other_side side) round' ≡ pool (other_side side) round
  pub keeps_id : round'.round_id ≡ round.round_id

sub_back : (a b : ℤ) → a -ℤ b +ℤ b ≡ a
sub_back a b = omega int_laws

pub take_from_pool-PoolShrunk :
    (side : BetSide) (stake : ℤ) (round : Round)
    → Ensures (PoolShrunk side stake round) (take_from_pool side stake round)
unfolding take_from_pool
take_from_pool-PoolShrunk bet_up stake round =
    Ensures-ok_or _ (checked_sub round.pool_up stake) _ _ (λ p e. record {
      shrinks = rw (checked_sub-eq-some _ _ e) (sub_back round.pool_up stake);
      keeps_other = refl;
      keeps_id = refl;
    })
take_from_pool-PoolShrunk bet_down stake round =
    Ensures-ok_or _ (checked_sub round.pool_down stake) _ _ (λ p e. record {
      shrinks = rw (checked_sub-eq-some _ _ e) (sub_back round.pool_down stake);
      keeps_other = refl;
      keeps_id = refl;
    })

-- An early exit from the active round.
pub record Exited (env : Env) (user : ℕ) (s s' : Storage) : Type 0 where
  pub round : Round
  pub round' : Round
  pub position : UserPosition
  pub forfeit : ℤ
  pub cashout : ℤ
  pub was_active : s.rounds.active_round ≡ some round
  pub is_active : s'.rounds.active_round ≡ some round'
  pub running : (round.bet_end_ledger ≤ env.sequence) × (env.sequence < round.end_ledger)
  pub had : s.rounds.position round.round_id user ≡ some position
  pub has_left : s'.rounds.position round.round_id user ≡ none
  pub shares : Shares position.amount (forfeit, cashout)
  pub shrunk : PoolShrunk position.side position.amount round round'
  pub pays : pending_of s' user ≡ pending_of s user +ℤ cashout
  pub collects : protocol_funds s' ≡ protocol_funds s +ℤ forfeit
  pub keeps_pending : (v : ℕ) → v ≢ user → pending_of s' v ≡ pending_of s v
  pub keeps_balances : (v : ℕ) → balance s' v ≡ balance s v

pub require_running-Ensures :
    (env : Env) (round : Round)
    → Ensures
        (λ t. (round.bet_end_ledger ≤ env.sequence) × (env.sequence < round.end_ledger))
        (require_running env round)
unfolding require_running
require_running-Ensures env round = ground arith

pub enabled_penalty-Ensures :
    (s : Storage) → Ensures (λ penalty. penalty ≤ 10_000) (enabled_penalty s)
unfolding enabled_penalty
enabled_penalty-Ensures s = ground arith

-- The position is there, and its amount is a positive number.
pub cashable_position-Ensures :
    (s : Storage) (round_id user : ℕ)
    → Ensures
        (λ p. (s.rounds.position round_id user ≡ some p) × ((n : ℕ) × (p.amount ≡ pos n)))
        (cashable_position s round_id user)
unfolding cashable_position
cashable_position-Ensures s round_id user =
    Ensures-ok_or _ (s.rounds.position round_id user) _ _
      (λ p e. Ensures-if _ (leb_ℤ p.amount (pos 0)) _ _ (λ h. tt) (λ h. (e, natural p.amount h)))
  where
    natural : (a : ℤ) → leb_ℤ a (pos 0) ≡ false → (n : ℕ) × (a ≡ pos n)
    natural (pos n) h = (n, refl)
    natural (negsuc n) h = absurd (ground arith)

pub outcome-keeps :
    (round_id : ℕ) (o : UserRoundOutcome) (s : Storage)
    → ((_persist_user_outcome round_id o s).funds ≡ s.funds)
      × ((_persist_user_outcome round_id o s).rounds.active_round ≡ s.rounds.active_round)
unfolding _persist_user_outcome
outcome-keeps round_id o s = ground arith
