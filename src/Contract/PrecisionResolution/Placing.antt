-- ===== src/Contract/PrecisionResolution/Placing.antt =====
-- One step of the first loop of `_resolve_precision_mode` (contracts/src/settlement.rs): where a revealed
-- prediction is placed.
use xelma_blockchain.Prelude.{
  ℕ, ◌≡◌, ◌≤◌, inl, inr, refl, Option, none, some, List, [], ◌∷◌, ◌++◌, arith, ltb, ltb→lt, ◌==◌,
  ==_refl, Bool-cases,
}
use mathlib.Core.List.{append-nil}
use xelma_blockchain.SettlementMath.Precision.{lower_min}
use xelma_blockchain.Contract.State.{Map, PrecisionPrediction, PrecisionCommitment}
use xelma_blockchain.Contract.PrecisionResolution.{PrecisionScan, place_prediction}
use xelma_blockchain.Contract.PrecisionResolution.Nearest.{
  revealed_by, distance, least, at_distance, row_of, rows_of, at-append, none-nearer, lower-All,
  snoc-All, Bounds, unmark_every, unrevealed_every,
}

module _ (fp : ℕ) (m : Map PrecisionPrediction) (c : Map PrecisionCommitment) where
  -- Winners and rows, for the predictions of the users seen.
  abbrev pub Placed : List ℕ → List PrecisionPrediction → Option ℕ → PrecisionScan → Type 0
  Placed us ps o scan =
      (scan.min_diff ≡ o)
      × (least fp none ps ≡ o)
      × (scan.winners ≡ at_distance fp o ps)
      × (scan.rows ≡ rows_of fp m c o us)
      × Bounds fp o ps

  nearest-Bounds :
      (d b : ℕ) (ps : List PrecisionPrediction) (p : PrecisionPrediction)
      → Bounds fp (some b) ps
      → d ≤ b
      → d ≤ distance fp p
      → Bounds fp (some d) (ps ++ p ∷ [])
  nearest-Bounds d b ps p h le le' = snoc-All fp d p ps (lower-All fp b d ps h le) le'

  module _ (us : List ℕ) (p : PrecisionPrediction) where
    -- The prediction of one more user, not yet in the list of users.
    abbrev pub Extended : Option ℕ → PrecisionScan → Type 0
    Extended o scan =
        (scan.min_diff ≡ o)
        × (scan.winners ≡ at_distance fp o (revealed_by m us ++ p ∷ []))
        × (scan.rows ≡ rows_of fp m c o us ++ row_of fp o (some p) none ∷ [])
        × Bounds fp o (revealed_by m us ++ p ∷ [])

    pub place_prediction-Extended :
        (o : Option ℕ) (scan : PrecisionScan)
        → Placed us (revealed_by m us) o scan
        → Extended (lower_min (distance fp p) o) (place_prediction (distance fp p) p o scan)
    unfolding place_prediction lower_min
    place_prediction-Extended none scan (min, from, won, rows, empty) = (
      refl,
      rw (won, empty, ==_refl (distance fp p)) refl,
      rw (rows, ==_refl (distance fp p), unrevealed_every fp m c (distance fp p) us empty) refl,
      rw empty (omega arith, tt),
    )
    place_prediction-Extended (some b) scan (min, from, won, rows, above) =
        let ps = revealed_by m us in
        let d = distance fp p in
        elim (Bool-cases (ltb d b)) [
          | inl nearer ↦ rw nearer (
            refl,
            rw
                (
                  at-append fp (some d) ps (p ∷ []),
                  none-nearer fp b d ps above (ltb→lt d b nearer),
                  ==_refl d,
                )
                refl,
            rw (rows, ==_refl d, unmark_every fp m c b d us above (ltb→lt d b nearer)) refl,
            nearest-Bounds d b ps p above (ground arith) (omega arith),
          )
          | inr further ↦ elim (Bool-cases (d == b)) [
            | inl same ↦
                rw (further, same)
                  (
                    min,
                    rw (at-append fp (some b) ps (p ∷ []), won, same) refl,
                    rw rows refl,
                    nearest-Bounds b b ps p above (omega arith) (ground arith),
                  )
            | inr other ↦
                rw (further, other)
                  (
                    min,
                    rw (at-append fp (some b) ps (p ∷ []), won, other, append-nil) refl,
                    rw rows refl,
                    nearest-Bounds b b ps p above (omega arith) (ground arith),
                  )
          ]
        ]
