-- ===== src/Contract/Disputes/Closing.antt =====
-- What the calls that end the dispute window of a round do (contracts/src/settlement.rs).
use xelma_blockchain.Prelude.{
  ℕ, ◌≡◌, ◌≤◌, ◌<◌, refl, ap, ◌∙◌, none, some, List, [], ◌∷◌, arith, ltb, leb,
}
use xelma_blockchain.Int.{ℤ, pos, ◌+ℤ◌}
use xelma_blockchain.Errors.{ok, Ensures, Ensures-ok, Ensures-bind, Ensures-ok_or, Ensures-if}
use xelma_blockchain.Contract.State.{
  Env, remove-same, unwrap_or, Storage, Rounds, Round, voided, PendingDisputeSettlement,
}
use xelma_blockchain.Contract.Admin.{_require_supported_schema, _ensure_not_paused}
use xelma_blockchain.Contract.Balances.{balance, pending_of}
use xelma_blockchain.Contract.Betting.{participants_of}
use xelma_blockchain.Contract.Fees.{get_insurance_fund_balance}
use xelma_blockchain.Contract.Fees.Collection.{treasury_amount, protocol_funds}
use xelma_blockchain.Contract.Settlement.Payments.{Paid}
use xelma_blockchain.Contract.Archive.{
  _archive_round, clear_positions, _clear_dispute_round_storage,
}
use xelma_blockchain.Contract.Disputes.{
  resolve_by_mode, _complete_settlement, _read_pending_dispute, _remove_pending_dispute,
}
use xelma_blockchain.Contract.Disputes.Calls.{void_participants, void_round, finalize_round}
use xelma_blockchain.Contract.Disputes.Voiding.{SameStakes, stakes_due, void_participants-Returned}

-- Everybody has the stake back, the protocol nothing, and the round is closed.
pub record Voided (env : Env) (round_id : ℕ) (s s' : Storage) : Type 0 where
  pub staged : PendingDisputeSettlement
  pub was_staged : s.archives.pending_disputes round_id ≡ some staged
  pub in_window : env.sequence < staged.deadline_ledger
  pub pays :
      (v : ℕ)
      → pending_of s' v
        ≡ pending_of s v
          +ℤ stakes_due staged.round.mode round_id s.rounds (participants_of s round_id) v
  pub keeps_balances : (v : ℕ) → balance s' v ≡ balance s v
  pub keeps_protocol : protocol_funds s' ≡ protocol_funds s
  pub keeps_active : s'.rounds.active_round ≡ s.rounds.active_round
  pub closes : s'.archives.pending_disputes round_id ≡ none

-- The round is settled at its price, and is closed; no round is active.
pub record Finalized (env : Env) (round_id : ℕ) (s s' : Storage) : Type 0 where
  pub staged : PendingDisputeSettlement
  pub was_staged : s.archives.pending_disputes round_id ≡ some staged
  pub window_over : staged.deadline_ledger ≤ env.sequence
  pub fee : ℤ
  pub paid : Storage
  pub settles :
      resolve_by_mode env staged.round staged.round.mode staged.final_price s ≡ ok (fee, paid)
  pub pays_so : s'.funds ≡ paid.funds
  pub counts_so : s'.rankings ≡ paid.rankings
  pub drops_active : s'.rounds.active_round ≡ none
  pub closes : s'.archives.pending_disputes round_id ≡ none

active-cleared :
    (round_id : ℕ) (users : List ℕ) (rounds : Rounds)
    → (clear_positions round_id users rounds).active_round ≡ rounds.active_round
unfolding clear_positions
active-cleared round_id [] rounds = refl
active-cleared round_id (user ∷ users) rounds = active-cleared round_id users _

removed-closes :
    (round_id : ℕ) (s : Storage)
    → (_remove_pending_dispute round_id s).archives.pending_disputes round_id ≡ none
unfolding _remove_pending_dispute
removed-closes round_id s = remove-same s.archives.pending_disputes round_id

-- What is archived and cleared after the payments is not money.
abbrev closed : Env → PendingDisputeSettlement → ℕ → List ℕ → Storage → Storage
closed env staged round_id users s = _remove_pending_dispute round_id (
    _clear_dispute_round_storage round_id users
      (_archive_round env staged.round voided staged.final_price users s))

closed-keeps :
    (env : Env) (staged : PendingDisputeSettlement) (round_id : ℕ) (users : List ℕ) (s : Storage)
    → ((closed env staged round_id users s).funds ≡ s.funds)
      × ((closed env staged round_id users s).rounds.active_round ≡ s.rounds.active_round)
unfolding _remove_pending_dispute _clear_dispute_round_storage _archive_round
closed-keeps env staged round_id users s = (refl, active-cleared round_id users s.rounds)

closed-Voided :
    (env : Env) (staged : PendingDisputeSettlement) (round_id : ℕ) (s s1 : Storage)
    → s.archives.pending_disputes round_id ≡ some staged
    → env.sequence < staged.deadline_ledger
    → Paid (stakes_due staged.round.mode round_id s.rounds (participants_of s round_id)) s s1
    → SameStakes s s1
    → Voided env round_id s (closed env staged round_id (participants_of s round_id) s1)
unfolding pending_of balance get_insurance_fund_balance
closed-Voided env staged round_id s s1 was before paid same =
    let (funds, active) = closed-keeps env staged round_id (participants_of s round_id) s1 in
    record {
      staged = staged;
      was_staged = was;
      in_window = before;
      pays = λ v. ap (λ f. unwrap_or (f.pending_winnings v) (pos 0)) funds ∙ paid.pays v;
      keeps_balances = λ v. ap (λ f. unwrap_or (f.balance v) (pos 0)) funds ∙ paid.keeps_balances v;
      keeps_protocol =
          ap (λ f. treasury_amount f.protocol_fee_treasury +ℤ unwrap_or f.insurance_fund (pos 0))
            funds
          ∙ paid.keeps_protocol;
      keeps_active = active ∙ same.same_active_round;
      closes = removed-closes round_id _;
    }

pub void_round-Ensures :
    (env : Env) (round_id : ℕ) (s : Storage)
    → Ensures (Voided env round_id s) (void_round env round_id s)
unfolding void_round _read_pending_dispute
void_round-Ensures env round_id s = Ensures-bind _ (_require_supported_schema s) _ (λ _ _.
    Ensures-bind _ (_ensure_not_paused s) _ (λ _ _.
      Ensures-ok_or _ (s.archives.pending_disputes round_id) _ _ (λ staged was.
        Ensures-if _ (leb staged.deadline_ledger env.sequence) _ _ (λ late. tt)
          (λ before.
            let users = participants_of s round_id in
            Ensures-bind _ (void_participants env round_id staged.round.mode users (pos 0, s)) _
              (λ (total, s1) e.
                let (paid, same) =
                  Ensures-ok _ _
                    (void_participants-Returned env round_id staged.round.mode users (pos 0) s) e in
                closed-Voided env staged round_id s s1 was (ground arith) paid same)))))

-- What `_complete_settlement` does beside the payments.
abbrev Completed : Env → Round → ℕ → Storage → (ℤ × ℕ) × Storage → Type 0
Completed env round final_price s ((fee, count), s') =
    (paid : Storage) × (resolve_by_mode env round round.mode final_price s ≡ ok (fee, paid))
    × (s'.funds ≡ paid.funds)
    × (s'.rankings ≡ paid.rankings)
    × (s'.rounds.active_round ≡ none)

_complete_settlement-Completed :
    (env : Env) (round : Round) (final_price : ℕ) (s : Storage)
    → Ensures (Completed env round final_price s) (_complete_settlement env round final_price s)
unfolding _complete_settlement _archive_round _clear_dispute_round_storage
_complete_settlement-Completed env round final_price s =
    Ensures-bind _ (resolve_by_mode env round round.mode final_price s) _
      (λ (fee, paid) e. (paid, e, refl, refl, refl))

Completed-Finalized :
    (env : Env) (staged : PendingDisputeSettlement) (round_id count : ℕ) (fee : ℤ) (s s1 : Storage)
    → s.archives.pending_disputes round_id ≡ some staged
    → staged.deadline_ledger ≤ env.sequence
    → Completed env staged.round staged.final_price s ((fee, count), s1)
    → Finalized env round_id s (_remove_pending_dispute round_id s1)
unfolding _remove_pending_dispute
Completed-Finalized env staged round_id count fee s s1 was late (paid, e, funds, ranks, active) =
    record {
      staged = staged;
      was_staged = was;
      window_over = late;
      fee = fee;
      paid = paid;
      settles = e;
      pays_so = funds;
      counts_so = ranks;
      drops_active = active;
      closes = removed-closes round_id s1;
    }

pub finalize_round-Ensures :
    (env : Env) (round_id : ℕ) (s : Storage)
    → Ensures (Finalized env round_id s) (finalize_round env round_id s)
unfolding finalize_round _read_pending_dispute
finalize_round-Ensures env round_id s = Ensures-bind _ (_require_supported_schema s) _ (λ _ _.
    Ensures-bind _ (_ensure_not_paused s) _ (λ _ _.
      Ensures-ok_or _ (s.archives.pending_disputes round_id) _ _ (λ staged was.
        Ensures-if _ (ltb env.sequence staged.deadline_ledger) _ _ (λ early. tt)
          (λ late.
            Ensures-bind _ (_complete_settlement env staged.round staged.final_price s) _
              (λ ((fee, count), s1) e.
                Completed-Finalized env staged round_id count fee s s1 was (ground arith) (
                  Ensures-ok _ _
                    (_complete_settlement-Completed env staged.round staged.final_price s) e))))))
