-- ===== src/Contract/Governance/DualControl.antt =====
-- Dual control over the proposals of contracts/src/governance.rs, at every reachable storage.
use xelma_blockchain.Prelude.{
  some-injective, ℕ, ◌≤◌, ◌<◌, ◌≡◌, ◌≢◌, ◌⊎◌, inl, inr, refl, sym, ap, subst, ◌∙◌, eq-cases, none,
  some, arith,
}
use xelma_blockchain.Errors.{Ensures-ok}
use xelma_blockchain.Contract.State as State
use xelma_blockchain.Contract.State.{
  unwrap_or, Env, put, put-same, put-other, Storage, GovAction, GovProposal, GovProposalStatus,
}
use xelma_blockchain.Contract.Governance.{next_id}
use xelma_blockchain.Contract.Governance.Steps.{
  Step, Reachable, proposes, approves, executes, cancels, elsewhere, start, step,
}
use xelma_blockchain.Contract.Governance.Calls.{
  Writes, Approval, Execution, Proposing, approve-Ensures, execute-Ensures, cancel-Ensures,
  propose-Ensures,
}

-- Somebody other than the proposer approved it.
abbrev pub SecondApproval : GovProposal → Type 0
SecondApproval p = (a : ℕ) × (p.approver ≡ some a) × (a ≢ p.proposer)

-- What a status stands for.
abbrev Stands : GovProposalStatus → GovProposal → Type 0
Stands State.pending p = Unit
Stands State.approved p = SecondApproval p
Stands State.executed p = SecondApproval p
Stands State.cancelled p = Unit
Stands State.expired p = Unit

pub record GovInvariant (s : Storage) : Type 0 where
  pub fresh : (id : ℕ) → next_id s ≤ id → s.governance.gov_proposal id ≡ none
  pub stands :
      (id : ℕ) (p : GovProposal) → s.governance.gov_proposal id ≡ some p → Stands p.status p

write-Stands :
    (m : State.Map GovProposal) (id : ℕ) (p' : GovProposal)
    → ((i : ℕ) (p : GovProposal) → m i ≡ some p → Stands p.status p)
    → Stands p'.status p'
    → (i : ℕ) (p : GovProposal) → put m id p' i ≡ some p
    → Stands p.status p
write-Stands m id p' h k i p e = elim (eq-cases i id) [
  | inl same ↦
      subst (λ q. Stands q.status q)
        (some-injective (sym (put-same m id p') ∙ (ap (put m id p') (sym same) ∙ e))) k
  | inr other ↦ h i p (sym (put-other m id p' i other) ∙ e)
]

-- An id that holds a proposal is below the counter.
below_next :
    (s : Storage) (id : ℕ) (p : GovProposal)
    → GovInvariant s
    → s.governance.gov_proposal id ≡ some p
    → id < next_id s
below_next s id p inv found = ground (arith, inv.fresh id)

write-fresh :
    (s s' : Storage) (id : ℕ) (p p' : GovProposal)
    → GovInvariant s
    → Writes id p p' s s'
    → (i : ℕ) → next_id s' ≤ i
    → s'.governance.gov_proposal i ≡ none
write-fresh s s' id p p' inv (found, written, same) i le =
    ap (λ m. m i) written
    ∙ (put-other s.governance.gov_proposal id p' i
          (λ e. omega (arith, e, old, below_next s id p inv found))
        ∙ inv.fresh i old)
  where
    old : next_id s ≤ i
    old = unfold next_id in rw same at le

-- Writing one proposal that the invariant allows keeps it.
write-GovInvariant :
    (s s' : Storage) (id : ℕ) (p p' : GovProposal)
    → GovInvariant s
    → Stands p'.status p'
    → Writes id p p' s s'
    → GovInvariant s'
write-GovInvariant s s' id p p' inv k w = record {
  fresh = write-fresh s s' id p p' inv w;
  stands = λ i q e.
      write-Stands s.governance.gov_proposal id p' inv.stands k i q (ap (λ m. m i) (sym w.1) ∙ e);
}

propose-GovInvariant :
    (id : ℕ) (s s' : Storage) → GovInvariant s → Proposing id s s' → GovInvariant s'
propose-GovInvariant id s s' inv c = record {
  fresh = λ i le.
      ap (λ m. m i) c.writes
      ∙ (put-other s.governance.gov_proposal id c.proposal i (λ e. omega (arith, e, le, c.counts))
          ∙ inv.fresh i (omega (arith, le, c.counts, c.is_next)));
  stands = λ i q e.
      write-Stands s.governance.gov_proposal id c.proposal inv.stands (rw c.is_pending tt) i q
        (ap (λ m. m i) (sym c.writes) ∙ e);
}

approve-GovInvariant :
    (env : Env) (approver id : ℕ) (s s' : Storage)
    → GovInvariant s
    → Approval env approver id s s'
    → GovInvariant s'
approve-GovInvariant env approver id s s' inv c =
    write-GovInvariant s s' id c.proposal _ inv (approver, refl, λ e. c.distinct (sym e)) c.writes

execute-GovInvariant :
    (env : Env) (executor id : ℕ) (s s' : Storage)
    → GovInvariant s
    → Execution env executor id s s'
    → GovInvariant s'
execute-GovInvariant env executor id s s' inv c =
    write-GovInvariant s s' id c.proposal _ inv approval c.writes
  where
    approval : SecondApproval c.proposal
    approval =
        subst (λ status. Stands status c.proposal) c.was_approved
          (inv.stands id c.proposal c.writes.0)

elsewhere-GovInvariant :
    (s s' : Storage)
    → GovInvariant s
    → s'.governance.gov_proposal ≡ s.governance.gov_proposal
    → s'.governance.next_gov_proposal_id ≡ s.governance.next_gov_proposal_id
    → GovInvariant s'
elsewhere-GovInvariant s s' inv e n = record {
  fresh = λ i le. ap (λ m. m i) e ∙ inv.fresh i (unfold next_id in rw n at le);
  stands = λ i q h. inv.stands i q (ap (λ m. m i) (sym e) ∙ h);
}

Step-GovInvariant : (s s' : Storage) → GovInvariant s → Step s s' → GovInvariant s'
Step-GovInvariant s s' inv (proposes env proposer action ttl id e) =
    propose-GovInvariant id s s' inv (Ensures-ok _ _ (propose-Ensures env proposer action ttl s) e)
Step-GovInvariant s s' inv (approves env approver id e) =
    approve-GovInvariant env approver id s s' inv
      (Ensures-ok _ _ (approve-Ensures env approver id s) e)
Step-GovInvariant s s' inv (executes env executor id e) =
    execute-GovInvariant env executor id s s' inv
      (Ensures-ok _ _ (execute-Ensures env executor id s) e)
Step-GovInvariant s s' inv (cancels env canceller id e) =
    let c = Ensures-ok _ _ (cancel-Ensures env canceller id s) e in
    write-GovInvariant s s' id c.proposal _ inv tt c.writes
Step-GovInvariant s s' inv (elsewhere e n) = elsewhere-GovInvariant s s' inv e n

pub Reachable-GovInvariant : (s : Storage) → Reachable s → GovInvariant s
Reachable-GovInvariant _ (start s empty none_yet) = record {
  fresh = λ i le. empty i;
  stands = λ i q e. cc (empty i);
}
Reachable-GovInvariant _ (step s s' r t) = Step-GovInvariant s s' (Reachable-GovInvariant s r) t

-- In every storage that calls lead to from a contract without proposals, an executed proposal was
-- approved by somebody other than its proposer.
pub execute-SecondApproval :
    (s : Storage) (id : ℕ) (p : GovProposal)
    → Reachable s
    → s.governance.gov_proposal id ≡ some p
    → p.status ≡ State.executed
    → SecondApproval p
execute-SecondApproval s id p r found e =
    subst (λ status. Stands status p) e ((Reachable-GovInvariant s r).stands id p found)

-- A proposal that is over: executed or cancelled.
abbrev pub Over : GovProposal → Type 0
Over p = (p.status ≡ State.executed) ⊎ (p.status ≡ State.cancelled)
