-- ===== src/Contract/Disputes/Calls.antt =====
-- The calls that end the dispute window of a round, `void_round` and `finalize_round` of
-- contracts/src/settlement.rs.
use xelma_blockchain.Prelude.{ℕ, Option, none, some, List, [], ◌∷◌, ltb, leb, if◌then◌else◌}
use xelma_blockchain.Int.{ℤ, pos, ltb_ℤ}
use xelma_blockchain.Errors
use xelma_blockchain.Errors.{Result, ok, err, ok_or, ◌>>=◌, ◌>>◌}
use xelma_blockchain.SettlementMath.Common.{payout_add}
use xelma_blockchain.Contract.State.{
  Env, Storage, RoundMode, up_down, precision, UserPosition, PrecisionPrediction, void, voided,
}
use xelma_blockchain.Contract.Admin.{_require_supported_schema, _ensure_not_paused}
use xelma_blockchain.Contract.Balances.{_accumulate_pending}
use xelma_blockchain.Contract.Betting.{participants_of}
use xelma_blockchain.Contract.CashOut.{_persist_user_outcome}
use xelma_blockchain.Contract.Settlement.{refund_outcome}
use xelma_blockchain.Contract.PrecisionResolution.{staked_amount, precision_outcome}
use xelma_blockchain.Contract.Archive.{_archive_round, _clear_dispute_round_storage}
use xelma_blockchain.Contract.Disputes.{
  _complete_settlement, _read_pending_dispute, _remove_pending_dispute,
}

-- A stake back, in the total and to the user.
unfoldable pub void_position :
    Env → ℕ → ℕ → Option UserPosition → ℤ × Storage → Result (ℤ × Storage)
void_position env round_id user none (total_refund, s) = ok (total_refund, s)
void_position env round_id user (some position) (total_refund, s) = do
  total ← payout_add total_refund position.amount
  s' ← _accumulate_pending env user position.amount s
  ok (
    total,
    _persist_user_outcome round_id (record (refund_outcome 0 user position) { outcome = void }) s',
  )

abbrev pub predicted_price_of : Option PrecisionPrediction → ℕ
predicted_price_of none = 0
predicted_price_of (some prediction) = prediction.predicted_price

unfoldable pub void_stake : Env → ℕ → ℕ → ℕ → ℤ → ℤ × Storage → Result (ℤ × Storage)
void_stake env round_id user predicted_price stake (total_refund, s) =
    if ltb_ℤ (pos 0) stake
    then (do
      total ← payout_add total_refund stake
      s' ← _accumulate_pending env user stake s
      ok (
        total,
        _persist_user_outcome round_id (precision_outcome user predicted_price stake stake void) s',
      ))
    else ok (total_refund, s)

unfoldable pub void_participant : Env → ℕ → RoundMode → ℕ → ℤ × Storage → Result (ℤ × Storage)
void_participant env round_id up_down user (total_refund, s) =
    void_position env round_id user (s.rounds.position round_id user) (total_refund, s)
void_participant env round_id precision user (total_refund, s) =
    let prediction = s.rounds.precision_position round_id user in
    void_stake env round_id user (predicted_price_of prediction)
      (staked_amount prediction (s.rounds.precision_commitment round_id user)) (total_refund, s)

unfoldable pub void_participants : Env → ℕ → RoundMode → List ℕ → ℤ × Storage → Result (ℤ × Storage)
void_participants env round_id mode [] r = ok r
void_participants env round_id mode (user ∷ users) r = do
  r' ← void_participant env round_id mode user r
  void_participants env round_id mode users r'

unfoldable pub void_round : Env → ℕ → Storage → Result Storage
void_round env round_id s = do
  _ ← _require_supported_schema s
  _ ← _ensure_not_paused s
  pending ← ok_or (_read_pending_dispute round_id s) Errors.round_not_cancellable
  if leb pending.deadline_ledger env.sequence then err Errors.round_not_cancellable else (do
    let participants = participants_of s round_id
    (total_refund, s1) ← void_participants env round_id pending.round.mode participants (pos 0, s)
    let s2 = _archive_round env pending.round voided pending.final_price participants s1
    let s3 = _clear_dispute_round_storage round_id participants s2
    ok (_remove_pending_dispute round_id s3))

unfoldable pub finalize_round : Env → ℕ → Storage → Result Storage
finalize_round env round_id s = do
  _ ← _require_supported_schema s
  _ ← _ensure_not_paused s
  pending ← ok_or (_read_pending_dispute round_id s) Errors.no_active_round
  if ltb env.sequence pending.deadline_ledger then err Errors.round_not_ended else (do
    (summary, s1) ← _complete_settlement env pending.round pending.final_price s
    ok (_remove_pending_dispute round_id s1))
