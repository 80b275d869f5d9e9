-- ===== src/Contract/Governance.antt =====
-- The dual-approval proposals of contracts/src/governance.rs. Where the source marks a proposal
-- expired and then returns an error, the host reverts the mark with the call.
pub mod Steps
pub mod Calls
pub mod DualControl
pub mod Treasury
use xelma_blockchain.Prelude.{
  ℕ, suc, ◌+◌, Bool, true, false, not, ◌||◌, Option, none, some, ltb, ◌==◌, if◌then◌else◌,
}
use xelma_blockchain.Machine.{u32_mod, u64_mod, saturate_u, checked_u}
use xelma_blockchain.Errors.{
  Result, ok, err, ok_or, or_panic, ◌>>=◌, ◌>>◌, gov_unauthorized, proposal_not_found,
  proposal_expired, gov_invalid_state, window_out_of_range, invalid_protocol_fee_bps,
}
use xelma_blockchain.Contract.State as State
use xelma_blockchain.Contract.State.{
  Env, require_auth, put, unwrap_or, Storage, GovAction, GovProposal, GovProposalStatus,
  TreasuryValue, normal, fully_paused,
}
use xelma_blockchain.Contract.Admin.{_require_supported_schema, _set_mode, admin_auth}
use xelma_blockchain.Contract.Insurance as Insurance

abbrev pub default_gov_proposal_ttl_ledgers : ℕ
default_gov_proposal_ttl_ledgers = 100

abbrev pub with_governance : Storage → State.Governance → Storage
with_governance s governance = record s { governance = governance }

-- Whether an optional address is this user.
abbrev pub is_user : ℕ → Option ℕ → Bool
is_user user none = false
is_user user (some a) = a == user

unfoldable pub _is_authorized_gov_user : Storage → ℕ → Bool
_is_authorized_gov_user s user = is_user user s.admin || is_user user s.governance.gov_approver

unfoldable pub set_gov_approver : Env → ℕ → Storage → Result Storage
set_gov_approver env approver s = do
  _v ← _require_supported_schema s
  _admin ← admin_auth env s
  ok (with_governance s (record s.governance { gov_approver = some approver }))

unfoldable pub set_gov_proposal_ttl : Env → ℕ → Storage → Result Storage
set_gov_proposal_ttl env ttl_ledgers s = do
  _v ← _require_supported_schema s
  _admin ← admin_auth env s
  if ttl_ledgers == 0
      then err window_out_of_range
      else ok (
          Insurance.with_config s (record s.config { gov_proposal_ttl_ledgers = some ttl_ledgers }))

unfoldable pub get_gov_proposal_ttl : Storage → ℕ
get_gov_proposal_ttl s =
    unwrap_or s.config.gov_proposal_ttl_ledgers default_gov_proposal_ttl_ledgers

-- The checks that all four operations open with.
unfoldable pub gov_auth : Env → ℕ → Storage → Result (Unit {0})
gov_auth env user s = do
  _v ← _require_supported_schema s
  require_auth env user
  if not (_is_authorized_gov_user s user) then err gov_unauthorized else ok tt

-- The id of the next proposal, 1 at first.
unfoldable pub next_id : Storage → ℕ
next_id s = unwrap_or s.governance.next_gov_proposal_id 1

abbrev pub write_proposal : Storage → ℕ → GovProposal → Storage
write_proposal s proposal_id proposal =
    with_governance s
      (record s.governance { gov_proposal = put s.governance.gov_proposal proposal_id proposal })

unfoldable pub new_proposal : Env → ℕ → GovAction → Option ℕ → Storage → GovProposal
new_proposal env proposer action custom_ttl s = record {
  id = next_id s;
  proposer = proposer;
  approver = none;
  action = action;
  created_at_ledger = env.sequence;
  expires_at_ledger =
      saturate_u u32_mod (env.sequence + unwrap_or custom_ttl (get_gov_proposal_ttl s));
  status = State.pending;
}

-- The id of the proposal, and the storage after.
unfoldable pub propose : Env → ℕ → GovAction → Option ℕ → Storage → Result (ℕ × Storage)
propose env proposer action custom_ttl s = do
  gov_auth env proposer s
  following ← or_panic (checked_u u64_mod (next_id s + 1))
  let s' = with_governance s (record s.governance { next_gov_proposal_id = some following })
  ok (next_id s, write_proposal s' (next_id s) (new_proposal env proposer action custom_ttl s))

-- The proposal, unless it is past its last ledger.
unfoldable pub live_proposal : Env → ℕ → Storage → Result GovProposal
live_proposal env proposal_id s = do
  proposal ← ok_or (s.governance.gov_proposal proposal_id) proposal_not_found
  if ltb proposal.expires_at_ledger env.sequence then err proposal_expired else ok proposal

unfoldable pub require_pending : GovProposalStatus → Result (Unit {0})
require_pending State.cancelled = err gov_invalid_state
require_pending State.executed = err gov_invalid_state
require_pending State.approved = err gov_invalid_state
require_pending State.expired = err proposal_expired
require_pending State.pending = ok tt

unfoldable pub approve : Env → ℕ → ℕ → Storage → Result Storage
approve env approver proposal_id s = do
  gov_auth env approver s
  proposal ← live_proposal env proposal_id s
  require_pending proposal.status
  if proposal.proposer == approver
      then err gov_invalid_state
      else ok (
          write_proposal s proposal_id
            (record proposal { approver = some approver; status = State.approved }))

unfoldable pub require_approved : GovProposalStatus → Result (Unit {0})
require_approved State.cancelled = err gov_invalid_state
require_approved State.executed = err gov_invalid_state
require_approved State.expired = err proposal_expired
require_approved State.pending = err gov_invalid_state
require_approved State.approved = ok tt

abbrev pub max_protocol_fee_bps : ℕ
max_protocol_fee_bps = 1_000

unfoldable pub _validate_protocol_fee_bps : Option ℕ → Result (Unit {0})
_validate_protocol_fee_bps none = ok tt
_validate_protocol_fee_bps (some v) =
    if v == 0 || ltb max_protocol_fee_bps v then err invalid_protocol_fee_bps else ok tt

-- The payload of an approved proposal.
unfoldable pub run_action : Env → GovAction → Storage → Result Storage
run_action env State.pause_protocol s = ok (_set_mode s fully_paused)
run_action env State.unpause_protocol s = ok (_set_mode s normal)
run_action env (State.set_protocol_fee_bps bps) s = do
  _validate_protocol_fee_bps bps
  ok (Insurance.with_config s (record s.config { protocol_fee_bps = bps }))
run_action env (State.withdraw_protocol_fee recipient amount) s =
    Insurance._execute_withdraw_fee recipient amount s
run_action env (State.set_treasury_address treasury) s =
    ok (record s {
      funds = record s.funds { protocol_fee_treasury = some (State.address treasury) };
    })
run_action env (State.set_admin new_admin) s = ok (record s { admin = some new_admin })
run_action env (State.set_oracle new_oracle) s = ok (record s { oracle = some new_oracle })
run_action env (State.withdraw_insurance_fund recipient amount) s =
    Insurance.execute_withdraw_insurance_fund recipient amount s
run_action env (State.set_insurance_split_bps bps) s = Insurance.set_insurance_split_bps env bps s
run_action env (State.set_insurance_coverage_bps bps) s =
    Insurance.set_insurance_coverage_bps env bps s

unfoldable pub execute : Env → ℕ → ℕ → Storage → Result Storage
execute env executor proposal_id s = do
  gov_auth env executor s
  proposal ← live_proposal env proposal_id s
  require_approved proposal.status
  s' ← run_action env proposal.action s
  ok (write_proposal s' proposal_id (record proposal { status = State.executed }))

unfoldable pub require_open : GovProposalStatus → Result (Unit {0})
require_open State.executed = err gov_invalid_state
require_open State.cancelled = err gov_invalid_state
require_open _ = ok tt

unfoldable pub cancel : Env → ℕ → ℕ → Storage → Result Storage
cancel env canceller proposal_id s = do
  gov_auth env canceller s
  proposal ← ok_or (s.governance.gov_proposal proposal_id) proposal_not_found
  require_open proposal.status
  ok (write_proposal s proposal_id (record proposal { status = State.cancelled }))
