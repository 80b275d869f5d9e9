-- ===== src/Tests/Contract/Amendments.antt =====
-- The amendments of contracts/src/governance.rs at a small storage.
use xelma_blockchain.Prelude.{◌≡◌, ◌≢◌, refl, true, arith}
use xelma_blockchain.Errors.{ok, value_or}
use xelma_blockchain.Contract.State.{Storage, Amendment, AmendmentStatus}
use xelma_blockchain.Contract.Constitution.{
  establish_constitution, propose_amendment, activate_amendment, get_amendment,
}
use xelma_blockchain.Contract.Constitution.Activation.{get_amendment-closes}
use xelma_blockchain.Tests.Contract.{everyone_at, base}

-- Vetoes for 5 ledgers, and 10 more before the activation.
abbrev constituted : Storage
constituted = value_or base (establish_constitution (everyone_at 10) 5 10 true base)

abbrev proposed : Storage
proposed = (value_or (0, base) (propose_amendment (everyone_at 20) 9 77 3 constituted)).1

abbrev first_amendment : Amendment
first_amendment = record {
  id = 1;
  proposer = 9;
  parameter_name = 77;
  new_value = 3;
  created_at_ledger = 20;
  veto_deadline_ledger = 25;
  activation_deadline_ledger = 35;
  status = AmendmentStatus.pending;
}

-- Read in ledger 36, when it could be activated.
get_amendment-closes_example :
    activate_amendment (everyone_at 36) 9 1 (get_amendment (everyone_at 36) 1 proposed).1
    ≢ ok proposed
unfolding value_or propose_amendment xelma_blockchain.Contract.Constitution.amendment_auth
    xelma_blockchain.Contract.Governance.gov_auth
    xelma_blockchain.Contract.Admin._require_supported_schema establish_constitution
    xelma_blockchain.Contract.Admin.admin_auth xelma_blockchain.Contract.State.require_auth
    xelma_blockchain.Contract.Governance._is_authorized_gov_user xelma_blockchain.Machine.checked_u
    xelma_blockchain.Contract.State.put xelma_blockchain.Machine.saturate_u
get_amendment-closes_example =
    get_amendment-closes (everyone_at 36) (everyone_at 36) 9 1 first_amendment proposed proposed
      refl refl (omega arith)

abbrev activated : Storage
activated = value_or base (activate_amendment (everyone_at 36) 9 1 proposed)

-- Without the read it is activated.
one_activated : activate_amendment (everyone_at 36) 9 1 proposed ≡ ok activated
unfolding value_or activate_amendment xelma_blockchain.Contract.Constitution.amendment_auth
    xelma_blockchain.Contract.Governance.gov_auth
    xelma_blockchain.Contract.Admin._require_supported_schema propose_amendment
    establish_constitution xelma_blockchain.Contract.Admin.admin_auth
    xelma_blockchain.Contract.State.require_auth
    xelma_blockchain.Contract.Governance._is_authorized_gov_user xelma_blockchain.Machine.checked_u
    xelma_blockchain.Contract.State.put xelma_blockchain.Machine.saturate_u
one_activated = refl
