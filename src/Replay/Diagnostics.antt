-- ===== src/Replay/Diagnostics.antt =====
-- replay-engine/src/diagnostics.rs: the differences between a recorded outcome and a replayed one. A
-- mismatch carries the two values that the source prints.
pub mod Complete
use xelma_blockchain.Prelude.{
  ℕ, Bool, true, false, not, List, [], ◌∷◌, ◌++◌, length, ◌==◌, if◌then◌else◌,
}
use xelma_blockchain.Int.{ℤ, eqb_ℤ}
use xelma_blockchain.Replay.Transcript.{
  ArchiveStatus, resolved, cancelled, fallback, voided, OutcomeKind, win, loss, refund, void,
  ExpectedPayout, RoundTranscript,
}
use xelma_blockchain.Replay.Engine.{ReplayPayout, ReplayResult}

pub data MismatchDiagnostic : Type 0 where
  archive_status : ArchiveStatus → ArchiveStatus → MismatchDiagnostic
  total_fee : ℤ → ℤ → MismatchDiagnostic
  payouts_len : ℕ → ℕ → MismatchDiagnostic
  payout_index : ℕ → ℕ → ℕ → MismatchDiagnostic
  payout_amount : ℕ → ℤ → ℤ → MismatchDiagnostic
  payout_outcome : ℕ → OutcomeKind → OutcomeKind → MismatchDiagnostic

abbrev pub status_eq : ArchiveStatus → ArchiveStatus → Bool
status_eq resolved resolved = true
status_eq cancelled cancelled = true
status_eq fallback fallback = true
status_eq voided voided = true
status_eq _ _ = false

abbrev pub outcome_eq : OutcomeKind → OutcomeKind → Bool
outcome_eq win win = true
outcome_eq loss loss = true
outcome_eq refund refund = true
outcome_eq void void = true
outcome_eq _ _ = false

-- A mismatch if the test fails.
abbrev pub unless : Bool → MismatchDiagnostic → List MismatchDiagnostic
unless true m = []
unless false m = m ∷ []

-- The loop over the payouts, in pairs.
unfoldable pub compare_payouts : List ExpectedPayout → List ReplayPayout → List MismatchDiagnostic
compare_payouts [] replayed = []
compare_payouts (e ∷ es) [] = []
compare_payouts (e ∷ es) (r ∷ rs) =
    unless (e.index == r.index) (payout_index e.index e.index r.index)
    ++ (unless (eqb_ℤ e.payout r.payout) (payout_amount e.index e.payout r.payout)
        ++ (unless (outcome_eq e.outcome r.outcome) (payout_outcome e.index e.outcome r.outcome)
            ++ compare_payouts es rs))

unfoldable pub compare_replay : RoundTranscript → ReplayResult → List MismatchDiagnostic
unfolding compare_payouts
compare_replay t replay =
    let expected = t.expected in
    unless (status_eq expected.archive_status replay.archive_status)
      (archive_status expected.archive_status replay.archive_status)
    ++ (unless (eqb_ℤ expected.total_fee replay.total_fee)
          (total_fee expected.total_fee replay.total_fee)
        ++ (if not (length expected.payouts == length replay.payouts)
            then payouts_len (length expected.payouts) (length replay.payouts) ∷ []
            else compare_payouts expected.payouts replay.payouts))

-- `Ok(())` is the empty list of mismatches.
unfoldable pub assert_live_matches_replay : RoundTranscript → ReplayResult → List MismatchDiagnostic
unfolding compare_replay
assert_live_matches_replay t replay = compare_replay t replay

unfoldable pub outcome_from_flags : Bool → Bool → Bool → OutcomeKind
outcome_from_flags is_winner is_refund is_void =
    if is_void then void else if is_refund then refund else if is_winner then win else loss
