-- ===== src/Contract/Disputes.antt =====
-- The settlement of a round at a price, and the dispute window between the price and the payouts
-- (contracts/src/settlement.rs).
pub mod Calls
pub mod Voiding
pub mod Closing
pub mod Window
use xelma_blockchain.Prelude.{
  ℕ, ◌+◌, Bool, true, false, Option, none, some, List, [], ◌∷◌, length, ltb, leb, ◌==◌,
  if◌then◌else◌,
}
use xelma_blockchain.Int.{ℤ, pos, ltb_ℤ}
use xelma_blockchain.Machine.{checked_u, u32_mod}
use xelma_blockchain.Errors
use xelma_blockchain.Errors.{Result, ok, err, ok_or, ◌>>=◌, ◌>>◌}
use xelma_blockchain.SettlementMath.Common.{payout_add}
use xelma_blockchain.Contract.State.{
  Env, put, remove, remove_in_round, unwrap_or, Storage, Rounds, Round, RoundMode, up_down,
  precision, UserPosition, PrecisionPrediction, void, RoundArchiveStatus, resolved, fallback_refund,
  voided, PendingDisputeSettlement,
}
use xelma_blockchain.Contract.Admin.{_require_supported_schema, _ensure_not_paused}
use xelma_blockchain.Contract.Balances.{_accumulate_pending}
use xelma_blockchain.Contract.Betting.{with_rounds, participants_of}
use xelma_blockchain.Contract.CashOut.{_persist_user_outcome}
use xelma_blockchain.Contract.Settlement.{refund_outcome, _record_refunds_indexed}
use xelma_blockchain.Contract.Resolution.{_resolve_updown_mode}
use xelma_blockchain.Contract.PrecisionResolution.{
  staked_amount, precision_outcome, refund_unrevealed, _resolve_precision_mode,
}
use xelma_blockchain.Contract.Archive.{
  with_archives, _archive_round, clear_positions, _clear_dispute_round_storage,
}

-- The refund of the stakes that are positive, of a precision round.
unfoldable pub refund_precision_stakes : Env → ℕ → List ℕ → Storage → Result Storage
refund_precision_stakes env round_id [] s = ok s
refund_precision_stakes env round_id (user ∷ users) s = do
  s' ←
      refund_unrevealed env round_id user
        (staked_amount (s.rounds.precision_position round_id user)
          (s.rounds.precision_commitment round_id user))
        s
  refund_precision_stakes env round_id users s'

abbrev pub refund_by_mode : Env → Round → RoundMode → List ℕ → Storage → Result Storage
refund_by_mode env round up_down participants s =
    _record_refunds_indexed env round.round_id 0 participants s
refund_by_mode env round precision participants s =
    refund_precision_stakes env round.round_id participants s

abbrev pub without_active : Rounds → Rounds
without_active rounds = record rounds { active_round = none }

-- The refunds of an up/down round are those of `_record_refunds_indexed`, written out once more in the
-- source.
unfoldable pub _refund_under_threshold : Env → Round → List ℕ → Storage → Result Storage
_refund_under_threshold env round participants s = do
  s' ← refund_by_mode env round round.mode participants s
  let rounds = clear_positions round.round_id participants s'.rounds
  ok (
      with_rounds s' (
        without_active
          (record rounds { participants = remove rounds.participants round.round_id })))

-- The settlement of the round's mode, and the fee.
abbrev pub resolve_by_mode : Env → Round → RoundMode → ℕ → Storage → Result (ℤ × Storage)
resolve_by_mode env round up_down final_price s = do
  ((one_sided, fee), s') ← _resolve_updown_mode env round final_price s
  ok (fee, s')
resolve_by_mode env round precision final_price s = do
  ((fee, total_pot), s') ← _resolve_precision_mode env round.round_id final_price false s
  ok (fee, s')

-- The removal, once more, of the stakes of the mode.
unfoldable pub clear_mode_positions : RoundMode → ℕ → List ℕ → Rounds → Rounds
clear_mode_positions mode round_id [] rounds = rounds
clear_mode_positions up_down round_id (user ∷ users) rounds =
    clear_mode_positions up_down round_id users
      (record rounds { position = remove_in_round rounds.position round_id user })
clear_mode_positions precision round_id (user ∷ users) rounds =
    clear_mode_positions precision round_id users (record rounds {
      precision_position = remove_in_round rounds.precision_position round_id user;
      precision_commitment = remove_in_round rounds.precision_commitment round_id user;
    })

-- The last guarded removal of the active round finds none.
abbrev pub remove_if_active : ℕ → Option Round → Rounds → Rounds
remove_if_active round_id none rounds = rounds
remove_if_active round_id (some active) rounds =
    if active.round_id == round_id then without_active rounds else rounds

-- The fee, how many took part, and the storage after.
unfoldable pub _complete_settlement : Env → Round → ℕ → Storage → Result ((ℤ × ℕ) × Storage)
_complete_settlement env round final_price s = do
  (fee_amount, s1) ← resolve_by_mode env round round.mode final_price s
  let participants = participants_of s1 round.round_id
  let s2 = _archive_round env round resolved final_price participants s1
  let s3 = _clear_dispute_round_storage round.round_id participants s2
  let cleared = clear_mode_positions round.mode round.round_id participants s3.rounds
  let rounds =
      without_active (record cleared { participants = remove cleared.participants round.round_id })
  let rounds' = remove_if_active round.round_id rounds.active_round rounds
  ok ((fee_amount, length participants), with_rounds s3 rounds')

abbrev pub with_dispute : ℕ → Option PendingDisputeSettlement → Storage → Storage
with_dispute round_id none s =
    with_archives s
      (record s.archives { pending_disputes = remove s.archives.pending_disputes round_id })
with_dispute round_id (some pending) s =
    with_archives s
      (record s.archives { pending_disputes = put s.archives.pending_disputes round_id pending })

unfoldable pub _read_pending_dispute : ℕ → Storage → Option PendingDisputeSettlement
_read_pending_dispute round_id s = s.archives.pending_disputes round_id

unfoldable pub _write_pending_dispute : PendingDisputeSettlement → Storage → Storage
_write_pending_dispute settlement s = with_dispute settlement.round.round_id (some settlement) s

unfoldable pub _remove_pending_dispute : ℕ → Storage → Storage
_remove_pending_dispute round_id s = with_dispute round_id none s

-- Below the least number of participants, if there is one.
abbrev pub is_under_threshold : Option ℕ → ℕ → Bool
is_under_threshold none count = false
is_under_threshold (some least) count = ltb count least

abbrev pub default_dispute_ledgers : ℕ
default_dispute_ledgers = 0

-- The result waits until the deadline.
unfoldable pub stage_settlement : Env → Round → ℕ → Option ℕ → ℕ → Storage → Result Storage
stage_settlement env round final_price confidence dispute_ledgers s = do
  deadline_ledger ← ok_or (checked_u u32_mod (env.sequence + dispute_ledgers)) Errors.overflow
  let s' =
      _write_pending_dispute
        (record {
          round = round;
          final_price = final_price;
          confidence = confidence;
          resolved_at_ledger = env.sequence;
          deadline_ledger = deadline_ledger;
        })
        s
  ok (with_rounds s' (without_active s'.rounds))

unfoldable pub _settle_round_with_price : Env → Round → ℕ → Option ℕ → Storage → Result Storage
_settle_round_with_price env round final_price confidence s =
    let participants = participants_of s round.round_id in
    let dispute_ledgers = unwrap_or s.config.limits.dispute_ledgers default_dispute_ledgers in
    if is_under_threshold s.config.limits.min_participants (length participants)
    then _refund_under_threshold env round participants
        (_archive_round env round fallback_refund final_price participants s)
    else if ltb 0 dispute_ledgers
    then stage_settlement env round final_price confidence dispute_ledgers s
    else (do (summary, s') ← _complete_settlement env round final_price s; ok s')
