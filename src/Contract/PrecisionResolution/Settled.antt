-- ===== src/Contract/PrecisionResolution/Settled.antt =====
-- What the resolution of a precision round pays in all (`_resolve_precision_mode` of
-- contracts/src/settlement.rs).
use xelma_blockchain.Prelude.{
  ℕ, ◌≡◌, inl, inr, refl, ap, ◌∙◌, false, Option, List, [], ◌∷◌, Bool-cases,
}
use xelma_blockchain.Int.{ℤ, pos, ltb_ℤ}
use xelma_blockchain.Errors.{ok, ◌>>=◌, Ensures, Ensures-ok, Ensures-bind, Ensures-weaken}
use xelma_blockchain.SettlementMath.Pot.{is_empty}
use xelma_blockchain.Contract.State.{Env, Storage, PrecisionPrediction}
use xelma_blockchain.Contract.Balances.{sort_addresses}
use xelma_blockchain.Contract.Betting.{participants_of}
use xelma_blockchain.Contract.PrecisionResolution.{
  PrecisionScan, precision_scan_start, scan_participants, refund_all_unrevealed, settle_precision,
  _resolve_precision_mode,
}
use xelma_blockchain.Contract.PrecisionResolution.Awards.{
  refunded_to, unpaid-Paid, same-Paid, refund_all_unrevealed-Paid,
}
use xelma_blockchain.Contract.PrecisionResolution.Nearest.{stake_in, rows_of}
use xelma_blockchain.Contract.PrecisionResolution.Scanning.{scan_participants-closest}
use xelma_blockchain.Contract.PrecisionResolution.Winners.{
  refund_due, OfPot, Outcome, PrecisionSettled, row-amount, winners-Shared,
}

module _ (env : Env) (round_id : ℕ) (users : List ℕ) where
  module _ (fp : ℕ) (s : Storage) where
    abbrev stake : ℕ → ℤ
    stake =
        stake_in fp (s.rounds.precision_position round_id) (s.rounds.precision_commitment round_id)

    refunded-due :
        (o : Option ℕ) (us : List ℕ) (v : ℕ)
        → refunded_to us
            (rows_of fp
              (s.rounds.precision_position round_id)
              (s.rounds.precision_commitment round_id)
              o
              us)
            v
          ≡ refund_due stake us v
    refunded-due o [] v = refl
    refunded-due o (u ∷ us) v =
        rw
          (
            row-amount fp o (s.rounds.precision_position round_id u)
                (s.rounds.precision_commitment round_id u),
            refunded-due o us v,
          )
          refl

    refunds-OfPot :
        (scan : PrecisionScan) (o : Option ℕ)
        → scan.rows
          ≡ rows_of fp
              (s.rounds.precision_position round_id)
              (s.rounds.precision_commitment round_id)
              o
              users
        → Ensures
            (OfPot stake users [] scan.total_pot s)
            (do s' ← refund_all_unrevealed env round_id users scan.rows s; ok (pos 0, s'))
    refunds-OfPot scan o are =
        Ensures-bind _ (refund_all_unrevealed env round_id users scan.rows s) _ (λ s' e. (
          refl,
          same-Paid (refunded_to users scan.rows) (refund_due stake users) s s'
              (λ v. ap (λ rows. refunded_to users rows v) are ∙ refunded-due o users v)
              (Ensures-ok _ _ (refund_all_unrevealed-Paid env round_id users scan.rows s) e),
        ))

    settle_precision-Outcome :
        (scan : PrecisionScan) (winners : List PrecisionPrediction) (o : Option ℕ)
        → scan.winners ≡ winners
        → scan.rows
          ≡ rows_of fp
              (s.rounds.precision_position round_id)
              (s.rounds.precision_commitment round_id)
              o
              users
        → Ensures
            (Outcome stake users winners scan.total_pot s)
            (settle_precision env round_id false users scan s)
    unfolding settle_precision
    settle_precision-Outcome scan [] o are rows = elim (Bool-cases (ltb_ℤ (pos 0) scan.total_pot)) [
      | inl some_pot ↦
          rw (some_pot, ap is_empty are)
            (Ensures-weaken {Q = Outcome stake users [] scan.total_pot s} _
              (λ (fee, s') k. rw some_pot k) (refunds-OfPot scan o rows))
      | inr no_pot ↦ rw (no_pot, ap is_empty are) (rw no_pot (refl, unpaid-Paid s))
    ]
    settle_precision-Outcome scan (w ∷ ws) o are rows =
        elim (Bool-cases (ltb_ℤ (pos 0) scan.total_pot)) [
          | inl some_pot ↦
              rw (some_pot, ap is_empty are)
                (Ensures-weaken {Q = Outcome stake users (w ∷ ws) scan.total_pot s} _
                  (λ (fee, s') k. rw some_pot k)
                  (winners-Shared env round_id users w ws scan s are))
          | inr no_pot ↦ rw (no_pot, ap is_empty are) (rw no_pot (refl, unpaid-Paid s))
        ]

nobody-Settled :
    (fp round_id : ℕ) (s : Storage)
    → sort_addresses (participants_of s round_id) ≡ []
    → PrecisionSettled round_id fp s ((pos 0, pos 0), s)
nobody-Settled fp round_id s nobody = rw nobody (refl, (refl, unpaid-Paid s))

resolve-Ensures :
    (env : Env) (round_id fp : ℕ) (users : List ℕ) (s : Storage)
    → sort_addresses (participants_of s round_id) ≡ users
    → Ensures (PrecisionSettled round_id fp s) (_resolve_precision_mode env round_id fp false s)
unfolding _resolve_precision_mode
resolve-Ensures env round_id fp [] s are = rw are (nobody-Settled fp round_id s are)
resolve-Ensures env round_id fp (u ∷ us) s are = rw are (
    Ensures-bind _ (scan_participants round_id s fp (u ∷ us) precision_scan_start) _ (λ scan e.
      let (won, rows, pot) = scan_participants-closest fp round_id s (u ∷ us) e in
      Ensures-bind _ (settle_precision env round_id false (u ∷ us) scan s) _ (λ (fee, s') e'.
        rw are (
          pot,
          Ensures-ok _ _ (settle_precision-Outcome env round_id (u ∷ us) fp s scan _ _ won rows) e',
        ))))

-- When the resolution of a precision round, its payouts not skipped, returns the fee and the pot: the pot
-- is the sum of the participants' stakes, of the revealed predictions and of the unrevealed commitments.
-- If the pot is positive and somebody has revealed, there is one payout for each revealed prediction
-- nearest to the price, the payouts add up to exactly the pot less the fee, the pending winnings of every
-- user grow by the payouts of that user's predictions, and the treasury and the insurance fund together
-- grow by the fee. If nobody has revealed, there is no fee, and every user's pending winnings grow by
-- that user's positive stakes. Without a positive pot there is no fee and nothing is paid. No balance and
-- no up/down position changes.
pub _resolve_precision_mode-PrecisionSettled :
    (env : Env) (round_id final_price : ℕ) (s : Storage) {r : (ℤ × ℤ) × Storage}
    → _resolve_precision_mode env round_id final_price false s ≡ ok r
    → PrecisionSettled round_id final_price s r
_resolve_precision_mode-PrecisionSettled env round_id fp s e =
    Ensures-ok _ _
      (resolve-Ensures env round_id fp (sort_addresses (participants_of s round_id)) s refl) e
