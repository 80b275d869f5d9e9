-- ===== src/Contract/PrecisionResolution/Nearest.antt =====
-- The winners of a precision round in two passes, independently of the loop of `_resolve_precision_mode`
-- (contracts/src/settlement.rs): the least difference, and then the predictions at that difference.
use xelma_blockchain.Prelude.{
  ℕ, ◌≡◌, ◌≤◌, ◌<◌, inl, inr, refl, ap, Bool, false, Option, none, some, List, [], ◌∷◌, ◌++◌, map,
  arith, All, ◌==◌, if◌then◌else◌, Bool-cases,
}
use xelma_blockchain.Int.{ℤ}
use xelma_blockchain.SettlementMath.Precision.{abs_diff, lower_min}
use xelma_blockchain.Contract.State.{Map, PrecisionPrediction, PrecisionCommitment}
use xelma_blockchain.Contract.PrecisionResolution.{
  ParticipantRow, staked_amount, revealed_row, unmark,
}

-- The predictions that the users have revealed, in their order.
abbrev pub with_revealed :
    Option PrecisionPrediction → List PrecisionPrediction → List PrecisionPrediction
with_revealed none ps = ps
with_revealed (some p) ps = p ∷ ps

abbrev pub revealed_by : Map PrecisionPrediction → List ℕ → List PrecisionPrediction
revealed_by m [] = []
revealed_by m (u ∷ us) = with_revealed (m u) (revealed_by m us)

module _ (fp : ℕ) where
  abbrev pub distance : PrecisionPrediction → ℕ
  distance p = abs_diff p.predicted_price fp

  -- The least distance, from one that is known.
  abbrev pub least : Option ℕ → List PrecisionPrediction → Option ℕ
  least o [] = o
  least o (p ∷ ps) = least (lower_min (distance p) o) ps

  abbrev pub is_at : Option ℕ → PrecisionPrediction → Bool
  is_at none p = false
  is_at (some d) p = distance p == d

  abbrev pub at_distance : Option ℕ → List PrecisionPrediction → List PrecisionPrediction
  at_distance o [] = []
  at_distance o (p ∷ ps) = if is_at o p then p ∷ at_distance o ps else at_distance o ps

  -- The predictions that are nearest to the price.
  abbrev pub closest : List PrecisionPrediction → List PrecisionPrediction
  closest ps = at_distance (least none ps) ps

  abbrev pub row_of :
      Option ℕ → Option PrecisionPrediction → Option PrecisionCommitment → ParticipantRow
  row_of o none commitment = record {
    amount = staked_amount none commitment;
    price = 0;
    revealed = false;
    was_winner = false;
  }
  row_of o (some p) commitment = revealed_row p (is_at o p)

  pub least-append :
      (o : Option ℕ) (ps qs : List PrecisionPrediction) → least o (ps ++ qs) ≡ least (least o ps) qs
  least-append o [] qs = refl
  least-append o (p ∷ ps) qs = least-append (lower_min (distance p) o) ps qs

  pub at-append :
      (o : Option ℕ) (ps qs : List PrecisionPrediction)
      → at_distance o (ps ++ qs) ≡ at_distance o ps ++ at_distance o qs
  at-append o [] qs = refl
  at-append o (p ∷ ps) qs = elim (Bool-cases (is_at o p)) [
    | inl e ↦ rw e (ap (λ xs. p ∷ xs) (at-append o ps qs))
    | inr e ↦ rw e (at-append o ps qs)
  ]

  -- No prediction is nearer than this; without one there is no prediction.
  abbrev pub Bounds : Option ℕ → List PrecisionPrediction → Type 0
  Bounds none ps = ps ≡ []
  Bounds (some d) ps = All (λ p. d ≤ distance p) ps

  pub none-nearer :
      (c d : ℕ) (ps : List PrecisionPrediction)
      → All (λ p. c ≤ distance p) ps
      → d < c
      → at_distance (some d) ps ≡ []
  none-nearer c d [] h lt = refl
  none-nearer c d (p ∷ ps) (h, hs) lt = ground (arith, none-nearer c d ps hs lt)

  pub lower-All :
      (c d : ℕ) (ps : List PrecisionPrediction)
      → All (λ p. c ≤ distance p) ps
      → d ≤ c
      → All (λ p. d ≤ distance p) ps
  lower-All c d [] h le = tt
  lower-All c d (p ∷ ps) (h, hs) le = (omega arith, lower-All c d ps hs le)

  pub snoc-All :
      (d : ℕ) (p : PrecisionPrediction) (ps : List PrecisionPrediction)
      → All (λ q. d ≤ distance q) ps
      → d ≤ distance p
      → All (λ q. d ≤ distance q) (ps ++ p ∷ [])
  snoc-All d p [] h le = (le, tt)
  snoc-All d p (q ∷ ps) (h, hs) le = (h, snoc-All d p ps hs le)

  module _ (m : Map PrecisionPrediction) (c : Map PrecisionCommitment) where
    abbrev pub stake_in : ℕ → ℤ
    stake_in u = staked_amount (m u) (c u)

    abbrev pub rows_of : Option ℕ → List ℕ → List ParticipantRow
    rows_of o us = map (λ u. row_of o (m u) (c u)) us

    unmarked :
        (b d u : ℕ) (o : Option PrecisionPrediction) (us : List ℕ)
        → All (λ p. b ≤ distance p) (with_revealed o (revealed_by m us))
        → d < b
        → (unmark (row_of (some b) o (c u)) ≡ row_of (some d) o (c u))
          × All (λ p. b ≤ distance p) (revealed_by m us)
    unmarked b d u none us h lt = (refl, h)
    unmarked b d u (some p) us (h, hs) lt =
        let further : false ≡ (distance p == d) = ground arith in
        (ap (λ w. revealed_row p w) further, hs)

    pub unmark_every :
        (b d : ℕ) (us : List ℕ)
        → All (λ p. b ≤ distance p) (revealed_by m us)
        → d < b
        → map unmark (rows_of (some b) us) ≡ rows_of (some d) us
    unmark_every b d [] h lt = refl
    unmark_every b d (u ∷ us) h lt =
        let (one, rest) = unmarked b d u (m u) us h lt in rw (one, unmark_every b d us rest lt) refl

    unrevealed :
        (d u : ℕ) (o : Option PrecisionPrediction) (us : List ℕ)
        → with_revealed o (revealed_by m us) ≡ []
        → (row_of none o (c u) ≡ row_of (some d) o (c u)) × (revealed_by m us ≡ [])
    unrevealed d u none us h = (refl, h)
    unrevealed d u (some p) us h = let some_left : ⊥ = cc in absurd some_left

    pub unrevealed_every :
        (d : ℕ) (us : List ℕ) → revealed_by m us ≡ [] → rows_of none us ≡ rows_of (some d) us
    unrevealed_every d [] h = refl
    unrevealed_every d (u ∷ us) h =
        let (one, rest) = unrevealed d u (m u) us h in rw (one, unrevealed_every d us rest) refl
