-- ===== src/Replay/Engine.antt =====
-- replay-engine/src/engine.rs: the outcome of a round, by the settlement mathematics of the contract.
use xelma_blockchain.Prelude.{
  ℕ, Bool, true, false, not, ◌&&◌, Option, none, some, List, [], ◌∷◌, map, ltb, ◌==◌, if◌then◌else◌,
}
use xelma_blockchain.Int.{ℤ, pos, leb_ℤ}
use xelma_blockchain.Machine.{checked_add}
use xelma_blockchain.Errors
use xelma_blockchain.Errors.{Result}
use xelma_blockchain.SettlementMath.Fees.{compute_updown_fee, compute_precision_fee}
use xelma_blockchain.SettlementMath.UpDown.{
  UpDownPosition, UpDownPayoutEntry, compute_updown_payouts,
}
use xelma_blockchain.SettlementMath.Precision.{PrecisionEntry}
use xelma_blockchain.SettlementMath.PrecisionPayouts.{
  PrecisionPayoutEntry, compute_precision_payouts,
}
use xelma_blockchain.Contract.State.{unwrap_or}
use xelma_blockchain.Replay.Transcript.{
  TranscriptMode, up_down, precision, TerminalAction, resolve, cancel, void, fallback_refund,
  ArchiveStatus, resolved, cancelled, fallback, voided, OutcomeKind, win, loss, refund,
  TranscriptParticipant, ExpectedPayout, ExpectedOutcome, RoundTranscript, settlement,
  oracle_round_mismatch, Replayed, done, failed, trapped, ◌>>=◌, ◌>>◌, validate_schema,
}

pub record ReplayPayout : Type 0 where
  pub index : ℕ
  pub payout : ℤ
  pub outcome : OutcomeKind

pub record ReplayResult : Type 0 where
  pub archive_status : ArchiveStatus
  pub total_fee : ℤ
  pub payouts : List ReplayPayout

-- `From<ContractError>`.
abbrev pub from_settlement {ℓ} : {A : Type ℓ} → Result A → Replayed A
from_settlement (Errors.ok a) = done a
from_settlement (Errors.err e) = failed (settlement e)
from_settlement Errors.panic = trapped

-- `unwrap_or` of a result; a trap in the call traps.
abbrev pub default_on_error {ℓ} : {A : Type ℓ} → Result A → A → Replayed A
default_on_error (Errors.ok a) d = done a
default_on_error (Errors.err e) d = done d
default_on_error Errors.panic d = trapped

unfoldable pub replay_full_refund :
    RoundTranscript → ArchiveStatus → OutcomeKind → Replayed ReplayResult
replay_full_refund t status outcome = done (record {
  archive_status = status;
  total_fee = pos 0;
  payouts =
      map (λ p. record { index = p.index; payout = p.amount; outcome = outcome }) t.participants;
})

-- `max(0)`.
abbrev pub at_least_zero : ℤ → ℤ
at_least_zero a = if leb_ℤ a (pos 0) then pos 0 else a

abbrev pub position_row : TranscriptParticipant → UpDownPosition
position_row p = record { index = p.index; amount = p.amount; side_up = unwrap_or p.side_up true }

abbrev pub outcome_kind : Bool → Bool → OutcomeKind
outcome_kind is_refund is_winner = if is_refund then refund else if is_winner then win else loss

abbrev pub updown_payout : UpDownPayoutEntry → ReplayPayout
updown_payout e = record {
  index = e.index;
  payout = e.payout;
  outcome = outcome_kind e.is_refund e.is_winner;
}

abbrev pub all_hold {ℓ} : {A : Type ℓ} → (A → Bool) → List A → Bool
all_hold test [] = true
all_hold test (x ∷ xs) = test x && all_hold test xs

unfoldable pub replay_updown : RoundTranscript → Replayed ReplayResult
replay_updown t = do
  entries ← from_settlement (
      compute_updown_payouts (map position_row t.participants) t.price_start t.final_price t.pool_up
        t.pool_down t.fee_bps)
  (_w, _l, fee) ←
      (if all_hold (λ e. e.is_refund) entries
        then done (pos 0, pos 0, pos 0)
        else default_on_error
            (compute_updown_fee (at_least_zero t.pool_up) (at_least_zero t.pool_down) t.fee_bps)
            (pos 0, pos 0, pos 0))
  done (record { archive_status = resolved; total_fee = fee; payouts = map updown_payout entries })

abbrev pub precision_row : TranscriptParticipant → PrecisionEntry
precision_row p = record {
  index = p.index;
  predicted_price = p.commit_reveal.predicted_price;
  amount = p.amount;
  revealed = p.commit_reveal.revealed;
}

abbrev pub precision_payout : PrecisionPayoutEntry → ReplayPayout
precision_payout e = record {
  index = e.index;
  payout = e.payout;
  outcome = outcome_kind e.is_refund e.is_winner;
}

-- `sum()`, which traps where it overflows.
unfoldable pub sum_amounts : ℤ → List PrecisionEntry → Replayed ℤ
sum_amounts acc [] = done acc
sum_amounts acc (e ∷ es) = elim (checked_add acc e.amount) [
  | none ↦ trapped
  | some acc' ↦ sum_amounts acc' es
]

unfoldable pub replay_precision : RoundTranscript → Replayed ReplayResult
replay_precision t = do
  let entries = map precision_row t.participants
  total_pot ← sum_amounts (pos 0) entries
  (_distributable, fee_amount) ←
      default_on_error (compute_precision_fee total_pot t.fee_bps) (pos 0, pos 0)
  payouts ← from_settlement (compute_precision_payouts entries t.final_price t.fee_bps)
  done (record {
    archive_status = resolved;
    total_fee = if all_hold (λ e. e.is_refund) payouts then pos 0 else fee_amount;
    payouts = map precision_payout payouts;
  })

unfoldable pub replay_mode : TranscriptMode → RoundTranscript → Replayed ReplayResult
replay_mode up_down t = replay_updown t
replay_mode precision t = replay_precision t

unfoldable pub replay_resolve : RoundTranscript → Replayed ReplayResult
unfolding replay_mode
replay_resolve t = replay_mode t.mode t

unfoldable pub under_threshold : ℕ → Option ℕ → Bool
under_threshold count none = false
under_threshold count (some min_participants) = ltb count min_participants

unfoldable pub replay_terminal : TerminalAction → RoundTranscript → Replayed ReplayResult
unfolding under_threshold
replay_terminal cancel t = replay_full_refund t cancelled OutcomeKind.void
replay_terminal void t = replay_full_refund t voided OutcomeKind.void
replay_terminal fallback_refund t = replay_full_refund t fallback refund
replay_terminal resolve t =
    if under_threshold t.participant_count t.min_participants
    then replay_full_refund t fallback refund
    else replay_resolve t

unfoldable pub replay_round : RoundTranscript → Replayed ReplayResult
unfolding replay_terminal
replay_round t = do
  validate_schema t
  if not (t.oracle.round_id == t.round_id)
      then failed (oracle_round_mismatch t.round_id t.oracle.round_id)
      else replay_terminal t.terminal t

abbrev pub expected_payout : ReplayPayout → ExpectedPayout
expected_payout p = record { index = p.index; payout = p.payout; outcome = p.outcome }

unfoldable pub replay_to_expected : ReplayResult → ExpectedOutcome
replay_to_expected r = record {
  archive_status = r.archive_status;
  total_fee = r.total_fee;
  payouts = map expected_payout r.payouts;
}
