-- ===== src/Tests/Replay.antt =====
-- replay-engine/src at the transcript of two bets.
use xelma_blockchain.Prelude.{
  ℕ, zero, suc, ◌<◌, count, ◌+◌, ◌≡◌, ◌↔◌, refl, false, none, [], ◌∷◌, map, All, arith,
}
use xelma_blockchain.Int.{ℤ, pos}
use xelma_blockchain.SettlementMath.UpDown.Payouts.{FitsRate, IsPayable}
use xelma_blockchain.Contract.State.{up_down, fee_on_pot, bet_up, bet_down}
use xelma_blockchain.Contract.Fees.{_read_protocol_fee_bps, _read_fee_model}
use xelma_blockchain.Replay.Transcript.{
  OracleTranscript, ExpectedOutcome, RoundTranscript, resolved, win, loss, done, is_empty,
  validate_schema, canonicalize_participants,
}
use xelma_blockchain.Replay.Engine.{ReplayResult, replay_round, replay_to_expected, position_row}
use xelma_blockchain.Replay.Diagnostics.{compare_replay}
use xelma_blockchain.Replay.Diagnostics.Complete.{compare_replay_iff}
use xelma_blockchain.Replay.Canonical.{indices, canonicalize_participants-validates}
use xelma_blockchain.Replay.Refinement.Rows.{row}
use xelma_blockchain.Replay.Refinement.Outcome.{recorded}
use xelma_blockchain.Replay.Refinement.Cases.{Agrees}
use xelma_blockchain.Replay.Refinement.Live.{_resolve_updown_mode-refines-replay_round}
use xelma_blockchain.Tests.Contract.{everyone_at}
use xelma_blockchain.Tests.Contract.Stakes.{round_with, two_bets}
use xelma_blockchain.Tests.Contract.Settlement.{two_settled, two_resolved}

abbrev price_report : OracleTranscript
price_report = record {
  price = 2_300;
  timestamp = 1_000;
  round_id = 3;
  nonce = 1;
  confidence = none;
}

abbrev replayed : ReplayResult
replayed = record {
  archive_status = resolved;
  total_fee = pos 2;
  payouts =
      record { index = 0; payout = pos 68; outcome = win }
      ∷ record { index = 1; payout = pos 0; outcome = loss }
      ∷ [];
}

abbrev recorded_outcome : ExpectedOutcome
recorded_outcome = record { archive_status = resolved; total_fee = pos 2; payouts = [] }

abbrev two_rows : RoundTranscript
two_rows = recorded (round_with up_down 40 30) 2_300 price_report recorded_outcome two_bets

two_replayed : replay_round two_rows ≡ done replayed
unfolding replay_round xelma_blockchain.Replay.Transcript.validate_schema
    xelma_blockchain.Contract.Balances.sort_addresses xelma_blockchain.Contract.State.put
    xelma_blockchain.Contract.Balances._set_balance xelma_blockchain.Contract.State.put_in_round
    xelma_blockchain.Replay.Engine.replay_resolve xelma_blockchain.Replay.Engine.replay_updown
    xelma_blockchain.SettlementMath.UpDown.compute_updown_payouts
    xelma_blockchain.SettlementMath.Common.classify_price_direction
    xelma_blockchain.SettlementMath.UpDown.settle_side
    xelma_blockchain.SettlementMath.Fees.compute_updown_fee _read_protocol_fee_bps
    xelma_blockchain.Machine.checked_add xelma_blockchain.Int.◌+ℤ◌
    xelma_blockchain.Machine.checked_mul xelma_blockchain.Int.◌*ℤ◌
    xelma_blockchain.SettlementMath.Fees.deduct_updown_fee xelma_blockchain.Machine.checked_sub
    xelma_blockchain.Int.◌-ℤ◌ xelma_blockchain.SettlementMath.UpDown.pay_positions
    xelma_blockchain.SettlementMath.UpDown.compute_updown_winner_payout
    xelma_blockchain.Machine.checked_div
two_replayed = refl

two_fit : FitsRate (_read_protocol_fee_bps two_bets) (40 + 30)
unfolding _read_protocol_fee_bps xelma_blockchain.Contract.Balances._set_balance
two_fit = omega arith

two_model : _read_fee_model two_bets ≡ fee_on_pot
unfolding _read_fee_model xelma_blockchain.Contract.Balances._set_balance
two_model = refl

two_listed : is_empty two_rows.participants ≡ false
unfolding xelma_blockchain.Contract.Balances.sort_addresses xelma_blockchain.Contract.State.put
    xelma_blockchain.Contract.Balances._set_balance xelma_blockchain.Contract.State.put_in_round
two_listed = refl

two-IsPayable : All (IsPayable (40 + 30)) (map position_row two_rows.participants)
unfolding xelma_blockchain.Contract.Balances.sort_addresses xelma_blockchain.Contract.State.put
    xelma_blockchain.Contract.Balances._set_balance xelma_blockchain.Contract.State.put_in_round
two-IsPayable = omega arith

_resolve_updown_mode-refines-replay_round_example :
    (r : ReplayResult) × Agrees two_rows two_bets two_settled (pos 2) r
_resolve_updown_mode-refines-replay_round_example =
    _resolve_updown_mode-refines-replay_round (everyone_at 21) (round_with up_down 40 30) 40 30
      2_300 price_report recorded_outcome two_bets refl refl (omega arith) refl two_model two_fit
      two_listed two-IsPayable two_resolved

compare_replay_iff_example :
    (compare_replay two_rows replayed ≡ []) ↔ (two_rows.expected ≡ replay_to_expected replayed)
compare_replay_iff_example = compare_replay_iff two_rows replayed

-- The two rows the other way round.
abbrev shuffled : RoundTranscript
shuffled = record two_rows {
  participants =
      row 1 2 (record { amount = pos 30; side = bet_down })
      ∷ row 0 1 (record { amount = pos 40; side = bet_up })
      ∷ [];
}

each_once : (i : ℕ) → i < 2 → count i (indices shuffled.participants) ≡ 1
each_once zero h = refl
each_once (suc zero) h = refl
each_once (suc (suc i)) h = absurd (omega arith)

canonicalize_participants-validates_example :
    (validate_schema (canonicalize_participants shuffled) ≡ done tt)
    × ((i : ℕ)
        → count i (indices (canonicalize_participants shuffled).participants)
          ≡ count i (indices shuffled.participants))
canonicalize_participants-validates_example =
    canonicalize_participants-validates shuffled refl (omega arith) (omega arith) each_once
