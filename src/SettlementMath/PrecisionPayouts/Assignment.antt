-- ===== src/SettlementMath/PrecisionPayouts/Assignment.antt =====
-- The payouts of the winners all reach an entry: the last loop of
-- `compute_precision_payouts_with_policy` hands out what the split made, once each.
use xelma_blockchain.Prelude.{
  ℕ, ◌≡◌, ◌≢◌, refl, Bool, none, List, [], ◌∷◌, length, arith, All, if◌then◌else◌,
}
use xelma_blockchain.Int.{ℤ, pos, ◌+ℤ◌, sum_ℤ, int_laws}
use xelma_blockchain.Errors.{Returns}
use xelma_blockchain.SettlementMath.Precision.{PrecisionEntry}
use xelma_blockchain.SettlementMath.PrecisionPayouts.{
  PrecisionPayoutEntry, position, assign_payouts,
}

-- No two entries have the same index.
abbrev pub Distinct : List PrecisionEntry → Type 0
Distinct [] = Unit
Distinct (e ∷ es) = All (λ d. d.index ≢ e.index) es × Distinct es

-- The indices of the entries that a test picks.
abbrev pub picked : (PrecisionEntry → Bool) → List PrecisionEntry → List ℕ
picked q [] = []
picked q (e ∷ es) = if q e then e.index ∷ picked q es else picked q es

abbrev pub total_payout : List PrecisionPayoutEntry → ℤ
total_payout = sum_ℤ (λ e. e.payout)

position-absent :
    (q : PrecisionEntry → Bool) (i : ℕ) (es : List PrecisionEntry)
    → All (λ d. d.index ≢ i) es
    → position (picked q es) i ≡ none
unfolding position
position-absent q i [] h = refl
position-absent q i (e ∷ es) h = ground (arith, position-absent q i es h.1)

-- The first winner paid first: the loop over the other entries sees the other winners' payouts.
assign-skip :
    (w : ℕ) (ws : List ℕ) (p : ℤ) (ps : List ℤ) (es : List PrecisionEntry)
    → All (λ d. d.index ≢ w) es
    → assign_payouts (w ∷ ws) (p ∷ ps) es ≡ assign_payouts ws ps es
unfolding assign_payouts
assign-skip w ws p ps [] h = refl
assign-skip w ws p ps (e ∷ es) h = ground (arith, assign-skip w ws p ps es h.1)

zero_add : (a : ℤ) → pos 0 +ℤ a ≡ a
zero_add a = omega int_laws

pub assign-Returns :
    (q : PrecisionEntry → Bool) (es : List PrecisionEntry) (ps : List ℤ)
    → Distinct es
    → length ps ≡ length (picked q es)
    → Returns (λ out. total_payout out ≡ sum_ℤ (λ x. x) ps) (assign_payouts (picked q es) ps es)
unfolding assign_payouts
assign-Returns q [] [] h e = refl
assign-Returns q [] (p ∷ ps) h e = absurd (omega arith)
assign-Returns q (e ∷ es) [] h l =
    ground (arith, position-absent q e.index es h.0, assign-Returns q es [] h.1, zero_add (pos 0))
assign-Returns q (e ∷ es) (p ∷ ps) h l = ground (
  arith,
  position-absent q e.index es h.0,
  assign-skip e.index (picked q es) p ps es h.0,
  assign-Returns q es ps h.1,
  assign-Returns q es (p ∷ ps) h.1,
  zero_add (p +ℤ sum_ℤ (λ x. x) ps),
)
