-- ===== src/Contract/Disputes/Window.antt =====
-- The dispute window of a round that has its price (contracts/src/settlement.rs): before the deadline the round
-- can be voided, from the deadline on it can be finalised, and either happens once.
use xelma_blockchain.Prelude.{ℕ, ◌≡◌, ◌≢◌, ◌⊎◌, inl, inr, none, some}
use xelma_blockchain.Errors.{ok, Ensures-ok}
use xelma_blockchain.Contract.State.{Env, Storage, PendingDisputeSettlement}
use xelma_blockchain.Contract.Disputes.Calls.{void_round, finalize_round}
use xelma_blockchain.Contract.Disputes.Closing.{
  Voided, Finalized, void_round-Ensures, finalize_round-Ensures,
}

-- When a round is voided, a settlement of it was staged and its deadline is still ahead; every user's pending
-- winnings grow by exactly that user's stakes in the round, as participants of it (in a precision round,
-- the positive stakes, of revealed predictions and of commitments); no balance, not the sum of the
-- treasury and the insurance fund, and no active round changes; and no settlement of the round is staged
-- any more.
pub void_round-Voided :
    (env : Env) (round_id : ℕ) (s : Storage) {s' : Storage}
    → void_round env round_id s ≡ ok s'
    → Voided env round_id s s'
void_round-Voided env round_id s h = Ensures-ok _ _ (void_round-Ensures env round_id s) h

-- When a round is finalised, a settlement of it was staged and its deadline has been reached; the users' and
-- the protocol's money and the statistics are then exactly what the resolution of the staged round at the
-- staged price makes of them; no settlement of the round is staged any more; and no round is active, not
-- even one that has been opened since.
pub finalize_round-Finalized :
    (env : Env) (round_id : ℕ) (s : Storage) {s' : Storage}
    → finalize_round env round_id s ≡ ok s'
    → Finalized env round_id s s'
finalize_round-Finalized env round_id s h = Ensures-ok _ _ (finalize_round-Ensures env round_id s) h

-- Once the round has been voided or finalised, and as long as no settlement of it is staged again, neither
-- happens again.
closed-stays :
    (env : Env) (round_id : ℕ) (s s' : Storage)
    → s.archives.pending_disputes round_id ≡ none
    → (void_round env round_id s ≢ ok s') × (finalize_round env round_id s ≢ ok s')
closed-stays env round_id s s' closed = (
  λ h. let v = void_round-Voided env round_id s h in some_left (v.was_staged),
  λ h. let f = finalize_round-Finalized env round_id s h in some_left (f.was_staged),
)
  where
    some_left : {p : PendingDisputeSettlement} → s.archives.pending_disputes round_id ≡ some p → ⊥
    some_left e = cc

-- A staged settlement is settled once: when a round has been voided or finalised, neither call returns for
-- that round in the storage that results, whoever makes it and whenever.
pub settled_once :
    (env env' : Env) (round_id : ℕ) (s s' s'' : Storage)
    → (void_round env round_id s ≡ ok s') ⊎ (finalize_round env round_id s ≡ ok s')
    → (void_round env' round_id s' ≢ ok s'') × (finalize_round env' round_id s' ≢ ok s'')
settled_once env env' round_id s s' s'' (inl h) =
    closed-stays env' round_id s' s'' (void_round-Voided env round_id s h).closes
settled_once env env' round_id s s' s'' (inr h) =
    closed-stays env' round_id s' s'' (finalize_round-Finalized env round_id s h).closes
