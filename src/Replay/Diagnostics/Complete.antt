-- ===== src/Replay/Diagnostics/Complete.antt =====
-- The comparison of replay-engine/src/diagnostics.rs finds every difference, and no others.

use xelma_blockchain.Prelude.{
  ◌≡◌, ◌↔◌, refl, Bool, true, false, List, [], ◌∷◌, ◌++◌, map, length, length-map, arith, ◌==◌,
  ==_iff,
}
use xelma_blockchain.Int.{ℤ, eqb_ℤ, eqb_ℤ-true}
use xelma_blockchain.Replay.Transcript.{
  ArchiveStatus, resolved, cancelled, fallback, voided, OutcomeKind, win, loss, refund, void,
  ExpectedPayout, RoundTranscript,
}
use xelma_blockchain.Replay.Engine.{ReplayPayout, ReplayResult, expected_payout, replay_to_expected}
use xelma_blockchain.Replay.Diagnostics.{
  MismatchDiagnostic, status_eq, outcome_eq, unless, compare_payouts, compare_replay,
}

status_eq-true : (a b : ArchiveStatus) → status_eq a b ≡ true → a ≡ b
status_eq-true resolved b h = ground arith
status_eq-true cancelled b h = ground arith
status_eq-true fallback b h = ground arith
status_eq-true voided b h = ground arith

outcome_eq-true : (a b : OutcomeKind) → outcome_eq a b ≡ true → a ≡ b
outcome_eq-true win b h = ground arith
outcome_eq-true loss b h = ground arith
outcome_eq-true refund b h = ground arith
outcome_eq-true void b h = ground arith

status_eq_refl : (a : ArchiveStatus) → status_eq a a ≡ true
status_eq_refl resolved = refl
status_eq_refl cancelled = refl
status_eq_refl fallback = refl
status_eq_refl voided = refl

outcome_eq_refl : (a : OutcomeKind) → outcome_eq a a ≡ true
outcome_eq_refl win = refl
outcome_eq_refl loss = refl
outcome_eq_refl refund = refl
outcome_eq_refl void = refl

eqb_ℤ_refl : (a : ℤ) → eqb_ℤ a a ≡ true
eqb_ℤ_refl a = ground arith

-- Nothing is reported in front of the rest.
unless-nil :
    (b : Bool) (m : MismatchDiagnostic) (rest : List MismatchDiagnostic)
    → unless b m ++ rest ≡ []
    → (b ≡ true) × (rest ≡ [])
unless-nil true m rest h = (refl, h)
unless-nil false m rest h = cc

payouts_equal :
    (es : List ExpectedPayout) (rs : List ReplayPayout)
    → length es ≡ length rs
    → compare_payouts es rs ≡ []
    → es ≡ map expected_payout rs
unfolding compare_payouts
payouts_equal [] [] n h = refl
payouts_equal [] (r ∷ rs) n h = absurd (omega arith)
payouts_equal (e ∷ es) [] n h = absurd (omega arith)
payouts_equal (e ∷ es) (r ∷ rs) n h =
    let (same_index, h1) = unless-nil (e.index == r.index) _ _ h in
    let (same_payout, h2) = unless-nil (eqb_ℤ e.payout r.payout) _ _ h1 in
    let (same_outcome, h3) = unless-nil (outcome_eq e.outcome r.outcome) _ _ h2 in
    ground (
      arith,
      ==_iff e.index r.index,
      eqb_ℤ-true e.payout r.payout,
      outcome_eq-true e.outcome r.outcome,
      payouts_equal es rs,
    )

payouts_agree : (rs : List ReplayPayout) → compare_payouts (map expected_payout rs) rs ≡ []
unfolding compare_payouts
payouts_agree [] = refl
payouts_agree (r ∷ rs) =
    rw ((==_iff r.index r.index).1 refl, eqb_ℤ_refl r.payout, outcome_eq_refl r.outcome)
      (payouts_agree rs)

same_expected :
    (t : RoundTranscript) (r : ReplayResult)
    → compare_replay t r ≡ []
    → t.expected ≡ replay_to_expected r
unfolding compare_replay replay_to_expected
same_expected t r h =
    let (same_status, h1) =
      unless-nil (status_eq t.expected.archive_status r.archive_status) _ _ h in
    let (same_fee, h2) = unless-nil (eqb_ℤ t.expected.total_fee r.total_fee) _ _ h1 in
    ground (
      arith,
      status_eq-true t.expected.archive_status r.archive_status,
      eqb_ℤ-true t.expected.total_fee r.total_fee,
      payouts_equal t.expected.payouts r.payouts,
    )

recorded_agrees :
    (t : RoundTranscript) (r : ReplayResult)
    → compare_replay (record t { expected = replay_to_expected r }) r ≡ []
unfolding compare_replay replay_to_expected
recorded_agrees t r =
    rw
      (
        status_eq_refl r.archive_status,
        eqb_ℤ_refl r.total_fee,
        length-map r.payouts expected_payout,
        (==_iff (length r.payouts) (length r.payouts)).1 refl,
      )
      (payouts_agree r.payouts)

-- A comparison reports nothing exactly when the recorded outcome is the replayed one: the archive status,
-- the fee, and the payouts with their indices and outcomes, in order.
pub compare_replay_iff :
    (t : RoundTranscript) (r : ReplayResult)
    → (compare_replay t r ≡ []) ↔ (t.expected ≡ replay_to_expected r)
compare_replay_iff t r = (same_expected t r, λ h. rw (← h) at (recorded_agrees t r))
