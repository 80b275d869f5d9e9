-- ===== src/Contract/PrecisionResolution/Scanning.antt =====
-- The first loop of `_resolve_precision_mode` (contracts/src/settlement.rs) finds, in one pass, the
-- predictions nearest to the price.
use xelma_blockchain.Prelude.{
  ℕ, ◌≡◌, refl, sym, ap, ◌∙◌, Option, none, some, List, [], ◌∷◌, ◌++◌, arith,
}
use mathlib.Core.List.{append_assoc, append-nil, map-append}
use xelma_blockchain.Int.{ℤ, pos, ◌+ℤ◌, sum_ℤ, int_laws}
use xelma_blockchain.Machine.{checked_add}
use xelma_blockchain.Machine.Laws.{checked_add-eq-some}
use xelma_blockchain.Errors.{ok, Ensures, Ensures-ok, Ensures-ok_or, Ensures-bind, Ensures-weaken}
use xelma_blockchain.SettlementMath.Common.{payout_add}
use xelma_blockchain.SettlementMath.Precision.{lower_min}
use xelma_blockchain.Contract.State.{Map, Storage, PrecisionPrediction, PrecisionCommitment}
use xelma_blockchain.Contract.PrecisionResolution.{
  PrecisionScan, precision_scan_start, staked_amount, place_prediction, place_participant,
  scan_participant, scan_participants,
}
use xelma_blockchain.Contract.PrecisionResolution.Nearest.{
  with_revealed, revealed_by, distance, least, at_distance, closest, stake_in, rows_of,
  least-append, Bounds,
}
use xelma_blockchain.Contract.PrecisionResolution.Placing.{place_prediction-Extended}

module _ (fp : ℕ) (m : Map PrecisionPrediction) (c : Map PrecisionCommitment) where
  -- What the loop has found of the users so far.
  pub record Scanned (us : List ℕ) (scan : PrecisionScan) : Type 0 where
    pub finds_least : least fp none (revealed_by m us) ≡ scan.min_diff
    pub finds_winners : scan.winners ≡ at_distance fp scan.min_diff (revealed_by m us)
    pub marks : scan.rows ≡ rows_of fp m c scan.min_diff us
    pub bounds : Bounds fp scan.min_diff (revealed_by m us)
    pub adds_up : scan.total_pot ≡ sum_ℤ (stake_in fp m c) us

  with_revealed-append :
      (o : Option PrecisionPrediction) (ps qs : List PrecisionPrediction)
      → with_revealed o (ps ++ qs) ≡ with_revealed o ps ++ qs
  with_revealed-append none ps qs = refl
  with_revealed-append (some p) ps qs = refl

  place_prediction-pot :
      (d : ℕ) (p : PrecisionPrediction) (o : Option ℕ) (scan : PrecisionScan)
      → (place_prediction d p o scan).total_pot ≡ scan.total_pot
  unfolding place_prediction
  place_prediction-pot d p none scan = refl
  place_prediction-pot d p (some b) scan = ground arith

  revealed_by-append :
      (us : List ℕ) (u : ℕ)
      → revealed_by m (us ++ u ∷ []) ≡ revealed_by m us ++ with_revealed (m u) []
  revealed_by-append [] u = refl
  revealed_by-append (v ∷ us) u =
      ap (with_revealed (m v)) (revealed_by-append us u)
      ∙ with_revealed-append (m v) (revealed_by m us) (with_revealed (m u) [])

  one_more : (a b x : ℤ) → a +ℤ (b +ℤ x) ≡ a +ℤ b +ℤ x
  one_more a b x = omega int_laws

  sum_ℤ-append : (f : ℕ → ℤ) (us : List ℕ) (u : ℕ) → sum_ℤ f (us ++ u ∷ []) ≡ sum_ℤ f us +ℤ f u
  sum_ℤ-append f [] u = swap (f u)
    where
      swap : (a : ℤ) → a +ℤ pos 0 ≡ pos 0 +ℤ a
      swap a = omega int_laws
  sum_ℤ-append f (v ∷ us) u =
      ap (λ x. f v +ℤ x) (sum_ℤ-append f us u) ∙ one_more (f v) (sum_ℤ f us) (f u)

  placed-Scanned :
      (us : List ℕ) (u : ℕ) (pred : Option PrecisionPrediction) (scan : PrecisionScan) (pot : ℤ)
      → m u ≡ pred
      → Scanned us scan
      → pot ≡ scan.total_pot +ℤ staked_amount pred (c u)
      → Scanned (us ++ u ∷ []) (place_participant fp pred (c u) (record scan { total_pot = pot }))
  unfolding place_participant
  placed-Scanned us u none scan pot e h grows = record {
    finds_least = rw (revealed_by-append us u, e, append-nil) h.finds_least;
    finds_winners = rw (revealed_by-append us u, e, append-nil) h.finds_winners;
    marks = rw (map-append, e, h.marks) refl;
    bounds = rw (revealed_by-append us u, e, append-nil) h.bounds;
    adds_up = grows ∙ rw (sum_ℤ-append (stake_in fp m c) us u, e, h.adds_up) refl;
  }
  placed-Scanned us u (some p) scan pot e h grows =
      let scan' = record scan { total_pot = pot } in
      let (min, won, rows, above) =
        place_prediction-Extended fp m c us p scan.min_diff scan'
          (refl, h.finds_least, h.finds_winners, h.marks, h.bounds) in
      record {
        finds_least =
            rw (revealed_by-append us u, e, min)
              (least-append fp none (revealed_by m us) (p ∷ [])
                ∙ ap (lower_min (distance fp p)) h.finds_least);
        finds_winners = rw (revealed_by-append us u, e, min) won;
        marks = rw (map-append, e, min) rows;
        bounds = rw (revealed_by-append us u, e, min) above;
        adds_up =
            place_prediction-pot (distance fp p) p scan.min_diff scan'
            ∙ (grows ∙ rw (sum_ℤ-append (stake_in fp m c) us u, e, h.adds_up) refl);
      }

  scan_participant-Scanned :
      (us : List ℕ) (u : ℕ) (scan : PrecisionScan)
      → Scanned us scan
      → Ensures (Scanned (us ++ u ∷ [])) (scan_participant fp (m u) (c u) scan)
  unfolding scan_participant payout_add
  scan_participant-Scanned us u scan h =
      Ensures-ok_or _ (checked_add scan.total_pot (staked_amount (m u) (c u))) _ _
        (λ pot e. placed-Scanned us u (m u) scan pot refl h (checked_add-eq-some _ _ e))

module _ (fp round_id : ℕ) (s : Storage) where
  abbrev pub RoundScanned : List ℕ → PrecisionScan → Type 0
  RoundScanned us scan =
      Scanned fp (s.rounds.precision_position round_id) (s.rounds.precision_commitment round_id) us
        scan

  scan_rest :
      (done us : List ℕ) (scan : PrecisionScan)
      → RoundScanned done scan
      → Ensures (RoundScanned (done ++ us)) (scan_participants round_id s fp us scan)
  unfolding scan_participants
  scan_rest done [] scan h = rw append-nil h
  scan_rest done (u ∷ us) scan h =
      let m = s.rounds.precision_position round_id in
      let c = s.rounds.precision_commitment round_id in
      Ensures-bind _ (scan_participant fp (m u) (c u) scan) _ (λ scan' e.
        Ensures-weaken (scan_participants round_id s fp us scan')
          (λ r k. rw (sym (append_assoc done (u ∷ []) us)) k)
          (scan_rest (done ++ u ∷ []) us scan'
            (Ensures-ok _ _ (scan_participant-Scanned fp m c done u scan h) e)))

  pub scan_participants-Scanned :
      (us : List ℕ)
      → Ensures (RoundScanned us) (scan_participants round_id s fp us precision_scan_start)
  scan_participants-Scanned us = scan_rest [] us precision_scan_start (record {
    finds_least = refl;
    finds_winners = refl;
    marks = refl;
    bounds = refl;
    adds_up = refl;
  })

-- When the loop over the participants of a precision round returns, its winners are the revealed
-- predictions at the least distance from the price, in the order of the participants (none if nothing was
-- revealed); a participant is marked as a winner exactly if they have revealed a prediction at that
-- distance; and the pot is the sum of the participants' stakes, of the revealed predictions and of the
-- commitments that were not revealed.
pub scan_participants-closest :
    (fp round_id : ℕ) (s : Storage) (users : List ℕ) {scan : PrecisionScan}
    → scan_participants round_id s fp users precision_scan_start ≡ ok scan
    → (scan.winners ≡ closest fp (revealed_by (s.rounds.precision_position round_id) users))
      × (scan.rows
          ≡ rows_of fp
              (s.rounds.precision_position round_id)
              (s.rounds.precision_commitment round_id)
              (least fp none (revealed_by (s.rounds.precision_position round_id) users))
              users)
      × (scan.total_pot
          ≡ sum_ℤ
              (stake_in fp
                (s.rounds.precision_position round_id)
                (s.rounds.precision_commitment round_id))
              users)
scan_participants-closest fp round_id s users e =
    let h = Ensures-ok _ _ (scan_participants-Scanned fp round_id s users) e in
    rw h.finds_least (h.finds_winners, h.marks, h.adds_up)
