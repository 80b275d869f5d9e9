-- ===== src/Tests/Contract/Proposals.antt =====
-- A proposal of contracts/src/governance.rs that is made, approved and executed.
use xelma_blockchain.Prelude.{ℕ, ◌≡◌, refl, Option, none, some}
use xelma_blockchain.Errors.{ok}
use xelma_blockchain.Contract.State as State
use xelma_blockchain.Contract.State.{Storage, GovProposal, GovProposalStatus, fully_paused}
use xelma_blockchain.Contract.Governance.{
  propose, approve, execute, write_proposal, with_governance,
}
use xelma_blockchain.Contract.Governance.Steps.{
  Reachable, proposes, approves, executes, start, step,
}
use xelma_blockchain.Contract.Governance.DualControl.{SecondApproval, execute-SecondApproval}
use xelma_blockchain.Tests.Contract.{everyone_at, base}

abbrev pause_proposal : Option ℕ → GovProposalStatus → GovProposal
pause_proposal approver status = record {
  id = 1;
  proposer = 8;
  approver = approver;
  action = State.pause_protocol;
  created_at_ledger = 10;
  expires_at_ledger = 110;
  status = status;
}

abbrev proposed : Storage
proposed =
    write_proposal (with_governance base (record base.governance { next_gov_proposal_id = some 2 }))
      1 (pause_proposal none State.pending)

abbrev approved : Storage
approved = write_proposal proposed 1 (pause_proposal (some 9) State.approved)

abbrev executed : Storage
executed =
    write_proposal (record approved { paused = some fully_paused }) 1
      (pause_proposal (some 9) State.executed)

eight_proposes : propose (everyone_at 10) 8 State.pause_protocol none base ≡ ok (1, proposed)
unfolding propose xelma_blockchain.Contract.Governance.gov_auth
    xelma_blockchain.Contract.Admin._require_supported_schema State.require_auth
    xelma_blockchain.Contract.Governance._is_authorized_gov_user xelma_blockchain.Machine.checked_u
    xelma_blockchain.Contract.Governance.next_id xelma_blockchain.Contract.Governance.new_proposal
    xelma_blockchain.Machine.saturate_u xelma_blockchain.Contract.Governance.get_gov_proposal_ttl
eight_proposes = refl

nine_approves : approve (everyone_at 11) 9 1 proposed ≡ ok approved
unfolding approve xelma_blockchain.Contract.Governance.gov_auth
    xelma_blockchain.Contract.Admin._require_supported_schema State.require_auth
    xelma_blockchain.Contract.Governance._is_authorized_gov_user
    xelma_blockchain.Contract.Governance.live_proposal State.put
    xelma_blockchain.Contract.Governance.require_pending
nine_approves = refl

eight_executes : execute (everyone_at 12) 8 1 approved ≡ ok executed
unfolding execute xelma_blockchain.Contract.Governance.gov_auth
    xelma_blockchain.Contract.Admin._require_supported_schema State.require_auth
    xelma_blockchain.Contract.Governance._is_authorized_gov_user
    xelma_blockchain.Contract.Governance.live_proposal State.put
    xelma_blockchain.Contract.Governance.require_approved
    xelma_blockchain.Contract.Governance.run_action xelma_blockchain.Contract.Admin._set_mode
eight_executes = refl

executed-Reachable : Reachable executed
executed-Reachable =
    step approved executed
      (step proposed approved
        (step base proposed (start base (λ id. refl) refl)
          (proposes (everyone_at 10) 8 State.pause_protocol none 1 eight_proposes))
        (approves (everyone_at 11) 9 1 nine_approves))
      (executes (everyone_at 12) 8 1 eight_executes)

execute-SecondApproval_example : SecondApproval (pause_proposal (some 9) State.executed)
unfolding State.put
execute-SecondApproval_example =
    execute-SecondApproval executed 1 (pause_proposal (some 9) State.executed) executed-Reachable
      refl refl

abbrev unpaused : Storage
unpaused = record executed { paused = none }
