-- ===== src/Contract/Governance/Steps.antt =====
-- The life of the proposals of contracts/src/governance.rs as a step relation on the storage, and what
-- each step does to them.
use xelma_blockchain.Prelude.{ℕ, ◌≡◌, refl, Option, none, arith}
use xelma_blockchain.Int.{ℤ}
use xelma_blockchain.SettlementMath.Common.{payout_add}
use xelma_blockchain.Contract.Balances.{_set_balance}
use xelma_blockchain.Contract.Fees.{write_treasury, write_insurance_fund}
use xelma_blockchain.Errors.{ok, Ensures}
use xelma_blockchain.Contract.State as State
use xelma_blockchain.Contract.State.{
  Env, require_auth, put, Storage, GovAction, GovProposal, GovProposalStatus,
}
use xelma_blockchain.Contract.Admin.{_set_mode}
use xelma_blockchain.Contract.Insurance.{
  set_insurance_split_bps, set_insurance_coverage_bps, credit, execute_withdraw_insurance_fund,
  withdraw_from_treasury, _execute_withdraw_fee,
}
use xelma_blockchain.Contract.Governance.{propose, approve, execute, cancel, run_action}

-- One call that succeeds. Every other entry point leaves the proposals and their counter alone.
pub data Step (s s' : Storage) : Type 0 where
  proposes :
      (env : Env) (proposer : ℕ) (action : GovAction) (ttl : Option ℕ) (id : ℕ)
      → propose env proposer action ttl s ≡ ok (id, s')
      → Step s s'
  approves : (env : Env) (approver id : ℕ) → approve env approver id s ≡ ok s' → Step s s'
  executes : (env : Env) (executor id : ℕ) → execute env executor id s ≡ ok s' → Step s s'
  cancels : (env : Env) (canceller id : ℕ) → cancel env canceller id s ≡ ok s' → Step s s'
  elsewhere :
      s'.governance.gov_proposal ≡ s.governance.gov_proposal
      → s'.governance.next_gov_proposal_id ≡ s.governance.next_gov_proposal_id
      → Step s s'

-- Storages that calls lead to from a contract without proposals.
pub data Reachable : Storage → Type 0 where
  start :
      (s : Storage)
      → ((id : ℕ) → s.governance.gov_proposal id ≡ none)
      → s.governance.next_gov_proposal_id ≡ none
      → Reachable s
  step : (s s' : Storage) → Reachable s → Step s s' → Reachable s'

_set_mode-keeps :
    (s : Storage) (mode : State.RuntimeMode) → (_set_mode s mode).governance ≡ s.governance
unfolding _set_mode
_set_mode-keeps s mode = ground arith

credit-keeps :
    (recipient : ℕ) (amount : ℤ) (s : Storage)
    → Ensures (λ s'. s'.governance ≡ s.governance) (credit recipient amount s)
unfolding credit payout_add _set_balance
credit-keeps recipient amount s = ground arith

withdraw_from_treasury-keeps :
    (recipient : ℕ) (amount current : ℤ) (s : Storage)
    → Ensures
        (λ s'. s'.governance ≡ s.governance)
        (withdraw_from_treasury recipient amount current s)
unfolding withdraw_from_treasury write_treasury
withdraw_from_treasury-keeps recipient amount current s =
    grind (arith, credit-keeps recipient amount)

_execute_withdraw_fee-keeps :
    (recipient : ℕ) (amount : ℤ) (s : Storage)
    → Ensures (λ s'. s'.governance ≡ s.governance) (_execute_withdraw_fee recipient amount s)
unfolding _execute_withdraw_fee
_execute_withdraw_fee-keeps recipient amount s =
    grind (arith, withdraw_from_treasury-keeps recipient amount)

execute_withdraw_insurance_fund-keeps :
    (recipient : ℕ) (amount : ℤ) (s : Storage)
    → Ensures
        (λ s'. s'.governance ≡ s.governance)
        (execute_withdraw_insurance_fund recipient amount s)
unfolding execute_withdraw_insurance_fund write_insurance_fund
execute_withdraw_insurance_fund-keeps recipient amount s =
    grind (arith, credit-keeps recipient amount)

-- The payload of a proposal touches no proposal.
pub run_action-keeps :
    (env : Env) (action : GovAction) (s : Storage)
    → Ensures (λ s'. s'.governance ≡ s.governance) (run_action env action s)
unfolding run_action set_insurance_split_bps set_insurance_coverage_bps
run_action-keeps env State.pause_protocol s = _set_mode-keeps s State.fully_paused
run_action-keeps env State.unpause_protocol s = _set_mode-keeps s State.normal
run_action-keeps env (State.set_protocol_fee_bps bps) s = ground arith
run_action-keeps env (State.withdraw_protocol_fee recipient amount) s =
    _execute_withdraw_fee-keeps recipient amount s
run_action-keeps env (State.set_treasury_address treasury) s = refl
run_action-keeps env (State.set_admin new_admin) s = refl
run_action-keeps env (State.set_oracle new_oracle) s = refl
run_action-keeps env (State.withdraw_insurance_fund recipient amount) s =
    execute_withdraw_insurance_fund-keeps recipient amount s
run_action-keeps env (State.set_insurance_split_bps bps) s = ground arith
run_action-keeps env (State.set_insurance_coverage_bps bps) s = ground arith
