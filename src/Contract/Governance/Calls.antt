-- ===== src/Contract/Governance/Calls.antt =====
-- What each call of contracts/src/governance.rs that succeeds has checked and written.
use xelma_blockchain.Prelude.{ℕ, suc, ◌+◌, ◌≤◌, ◌≡◌, ◌≢◌, refl, ap, true, Option, some, arith, ◌==◌}
use xelma_blockchain.Machine.{checked_u}
use xelma_blockchain.Errors.{ok, Ensures, Ensures-ok, Ensures-bind, Ensures-if, Ensures-ok_or}
use xelma_blockchain.Contract.State as State
use xelma_blockchain.Contract.State.{
  Env, require_auth, put, Storage, GovAction, GovProposal, GovProposalStatus,
}
use xelma_blockchain.Contract.Governance.{
  gov_auth, _is_authorized_gov_user, require_pending, require_approved, require_open, new_proposal,
  propose, approve, execute, cancel, next_id, write_proposal, with_governance, run_action,
  live_proposal,
}
use xelma_blockchain.Contract.Governance.Steps.{run_action-keeps}

-- What a call does to one proposal: it is at this id, and becomes this.
abbrev pub Writes : ℕ → GovProposal → GovProposal → Storage → Storage → Type 0
Writes id p p' s s' =
    (s.governance.gov_proposal id ≡ some p)
    × (s'.governance.gov_proposal ≡ put s.governance.gov_proposal id p')
    × (s'.governance.next_gov_proposal_id ≡ s.governance.next_gov_proposal_id)

-- An approval: a pending proposal that has not expired, approved by somebody other than its proposer.
pub record Approval (env : Env) (approver id : ℕ) (s s' : Storage) : Type 0 where
  pub proposal : GovProposal
  pub was_pending : proposal.status ≡ State.pending
  pub is_live : env.sequence ≤ proposal.expires_at_ledger
  pub distinct : proposal.proposer ≢ approver
  pub authorised : _is_authorized_gov_user s approver ≡ true
  pub signed : env.authorised approver ≡ true
  pub writes :
      Writes id proposal
        (record proposal { approver = some approver; status = State.approved })
        s
        s'

live_proposal-Ensures :
    (env : Env) (id : ℕ) (s : Storage)
    → Ensures
        (λ p. (s.governance.gov_proposal id ≡ some p) × (env.sequence ≤ p.expires_at_ledger))
        (live_proposal env id s)
unfolding live_proposal
live_proposal-Ensures env id s = ground arith

-- Whoever passes the opening checks has signed and is the administrator or the approver.
gov_auth-Ensures :
    (env : Env) (user : ℕ) (s : Storage)
    → Ensures
        (λ t. (env.authorised user ≡ true) × (_is_authorized_gov_user s user ≡ true))
        (gov_auth env user s)
unfolding gov_auth require_auth
gov_auth-Ensures env user s = ground arith

require_pending-Ensures :
    (status : GovProposalStatus) → Ensures (λ t. status ≡ State.pending) (require_pending status)
unfolding require_pending
require_pending-Ensures status = ground arith

pub approve-Ensures :
    (env : Env) (approver id : ℕ) (s : Storage)
    → Ensures (Approval env approver id s) (approve env approver id s)
unfolding approve
approve-Ensures env approver id s = Ensures-bind _ (gov_auth env approver s) _ (λ t auth.
    Ensures-bind _ (live_proposal env id s) _ (λ p live.
      Ensures-bind _ (require_pending p.status) _ (λ t' pending_status.
        Ensures-if _ (p.proposer == approver) _ _ (λ e. tt)
          (λ e. record {
            proposal = p;
            was_pending = Ensures-ok _ _ (require_pending-Ensures p.status) pending_status;
            is_live = (Ensures-ok _ _ (live_proposal-Ensures env id s) live).1;
            distinct = ground arith;
            authorised = (Ensures-ok _ _ (gov_auth-Ensures env approver s) auth).1;
            signed = (Ensures-ok _ _ (gov_auth-Ensures env approver s) auth).0;
            writes = ((Ensures-ok _ _ (live_proposal-Ensures env id s) live).0, refl, refl);
          }))))

-- An execution: an approved proposal that has not expired, at the call of the administrator or the
-- approver, whose payload has run.
pub record Execution (env : Env) (executor id : ℕ) (s s' : Storage) : Type 0 where
  pub proposal : GovProposal
  pub was_approved : proposal.status ≡ State.approved
  pub is_live : env.sequence ≤ proposal.expires_at_ledger
  pub authorised : _is_authorized_gov_user s executor ≡ true
  pub signed : env.authorised executor ≡ true
  pub after_payload : Storage
  pub payload : run_action env proposal.action s ≡ ok after_payload
  pub result : s' ≡ write_proposal after_payload id (record proposal { status = State.executed })
  pub writes : Writes id proposal (record proposal { status = State.executed }) s s'

require_approved-Ensures :
    (status : GovProposalStatus) → Ensures (λ t. status ≡ State.approved) (require_approved status)
unfolding require_approved
require_approved-Ensures status = ground arith

pub execute-Ensures :
    (env : Env) (executor id : ℕ) (s : Storage)
    → Ensures (Execution env executor id s) (execute env executor id s)
unfolding execute
execute-Ensures env executor id s = Ensures-bind _ (gov_auth env executor s) _ (λ t auth.
    Ensures-bind _ (live_proposal env id s) _ (λ p live.
      Ensures-bind _ (require_approved p.status) _ (λ t' approved_status.
        Ensures-bind _ (run_action env p.action s) _ (λ after ran.
          let kept = Ensures-ok _ _ (run_action-keeps env p.action s) ran in
          record {
            proposal = p;
            was_approved = Ensures-ok _ _ (require_approved-Ensures p.status) approved_status;
            is_live = (Ensures-ok _ _ (live_proposal-Ensures env id s) live).1;
            authorised = (Ensures-ok _ _ (gov_auth-Ensures env executor s) auth).1;
            signed = (Ensures-ok _ _ (gov_auth-Ensures env executor s) auth).0;
            after_payload = after;
            payload = ran;
            result = refl;
            writes = (
              (Ensures-ok _ _ (live_proposal-Ensures env id s) live).0,
              ap (λ g. put g.gov_proposal id (record p { status = State.executed })) kept,
              ap (λ g. g.next_gov_proposal_id) kept,
            );
          }))))

-- A cancellation: the proposal was neither executed nor cancelled.
pub record Cancellation (id : ℕ) (s s' : Storage) : Type 0 where
  pub proposal : GovProposal
  pub was_open : (proposal.status ≢ State.executed) × (proposal.status ≢ State.cancelled)
  pub writes : Writes id proposal (record proposal { status = State.cancelled }) s s'

require_open-Ensures :
    (status : GovProposalStatus)
    → Ensures (λ t. (status ≢ State.executed) × (status ≢ State.cancelled)) (require_open status)
unfolding require_open
require_open-Ensures State.pending = ((λ e. cc), (λ e. cc))
require_open-Ensures State.approved = ((λ e. cc), (λ e. cc))
require_open-Ensures State.executed = tt
require_open-Ensures State.cancelled = tt
require_open-Ensures State.expired = ((λ e. cc), (λ e. cc))

pub cancel-Ensures :
    (env : Env) (canceller id : ℕ) (s : Storage)
    → Ensures (Cancellation id s) (cancel env canceller id s)
unfolding cancel
cancel-Ensures env canceller id s = Ensures-bind _ (gov_auth env canceller s) _ (λ t auth.
    Ensures-ok_or _ (s.governance.gov_proposal id) _ _ (λ p found.
      Ensures-bind _ (require_open p.status) _ (λ t' open_status. record {
        proposal = p;
        was_open = Ensures-ok _ _ (require_open-Ensures p.status) open_status;
        writes = (found, refl, refl);
      })))

-- A proposal made: pending, without an approver, at an id that was free.
pub record Proposing (id : ℕ) (s s' : Storage) : Type 0 where
  pub proposal : GovProposal
  pub is_pending : proposal.status ≡ State.pending
  pub is_next : id ≡ next_id s
  pub writes : s'.governance.gov_proposal ≡ put s.governance.gov_proposal id proposal
  pub counts : next_id s' ≡ suc id

checked_u-eq-some : (bound n : ℕ) {m : ℕ} → checked_u bound n ≡ some m → m ≡ n
unfolding checked_u
checked_u-eq-some bound n h = ground arith

proposed :
    (env : Env) (proposer : ℕ) (action : GovAction) (ttl : Option ℕ) (s : Storage) (following : ℕ)
    → following ≡ next_id s + 1
    → Proposing (next_id s) s (
        write_proposal
          (with_governance s (record s.governance { next_gov_proposal_id = some following }))
          (next_id s)
          (new_proposal env proposer action ttl s))
unfolding next_id new_proposal
proposed env proposer action ttl s following e = record {
  proposal = new_proposal env proposer action ttl s;
  is_pending = refl;
  is_next = refl;
  writes = refl;
  counts = ground arith;
}

pub propose-Ensures :
    (env : Env) (proposer : ℕ) (action : GovAction) (ttl : Option ℕ) (s : Storage)
    → Ensures (λ (id, s'). Proposing id s s') (propose env proposer action ttl s)
unfolding propose
propose-Ensures env proposer action ttl s =
    Ensures-bind _ (gov_auth env proposer s) _
      (λ t auth. grind (arith, checked_u-eq-some, proposed env proposer action ttl s))
