-- ===== src/SettlementMath/PrecisionPayouts/Conservation.antt =====
-- A precision round of contracts/src/settlement_math.rs pays out exactly its pot less the fee.
use xelma_blockchain.Prelude.{
  ℕ, ◌-◌, ◌*◌, ◌/◌, ◌<◌, ◌≡◌, ◌≢◌, ◌⊎◌, inl, inr, refl, Bool, true, false, Option, none, some, List,
  [], ◌∷◌, map, length, arith,
}
use xelma_blockchain.Int.{ℤ, pos}
use xelma_blockchain.Machine.{i128_half}
use xelma_blockchain.Errors.{ok, Ensures, Ensures-ok, Returns, Returns-ok}
use xelma_blockchain.SettlementMath.Common.{bps_denominator}
use xelma_blockchain.SettlementMath.Fees.Conservation.{
  fee_of, IsRate, compute_precision_fee-Ensures, compute_precision_fee_total,
}
use xelma_blockchain.SettlementMath.Fees.{compute_precision_fee}
use xelma_blockchain.SettlementMath.Pot.{is_empty}
use xelma_blockchain.SettlementMath.Pot.Weighted.{even-Returns, length-ne}
use xelma_blockchain.SettlementMath.Precision.{
  PrecisionEntry, PrecisionPayoutPolicy, equal, PrecisionScoringPolicy,
  find_precision_winners_with_policy, find_precision_winners, default_policy,
}
use xelma_blockchain.SettlementMath.Precision.Scanning.{least_from}
use xelma_blockchain.SettlementMath.PrecisionPayouts.{
  PrecisionPayoutEntry, payout_entry, assign_payouts, settle_winners,
  compute_precision_payouts_with_policy, compute_precision_payouts,
}
use xelma_blockchain.SettlementMath.PrecisionPayouts.Assignment.{
  picked, Distinct, total_payout, assign-Returns,
}
use xelma_blockchain.SettlementMath.PrecisionPayouts.ByPolicy.{SplitsAmong, split_by_policy-Ensures}
use xelma_blockchain.SettlementMath.PrecisionPayouts.Picked.{
  wins, winner_indices-picked, AreStakes, stakes_total, total_pot-stakes,
}

-- A rate below 100 per cent leaves something of a pot.
abbrev pub IsBelowFull : Option ℕ → Type 0
IsBelowFull none = Unit
IsBelowFull (some bps) = bps < bps_denominator

IsBelowFull-IsRate : (bps : Option ℕ) → IsBelowFull bps → IsRate bps
IsBelowFull-IsRate none h = tt
IsBelowFull-IsRate (some bps) h = omega arith

fee-lt : (pot bps : ℕ) → 0 < pot → bps < 10_000 → pot * bps / 10_000 < pot
fee-lt pot bps h k = grind arith

fee_of-lt : (bps : Option ℕ) (pot : ℕ) → 0 < pot → IsBelowFull bps → fee_of bps pot < pot
fee_of-lt none pot h k = h
fee_of-lt (some bps) pot h k = fee-lt pot bps h k

abbrev pub FitsFee : Option ℕ → ℕ → Type 0
FitsFee none pot = Unit
FitsFee (some bps) pot = pot * bps < i128_half

fee_total :
    (bps : Option ℕ) (pot : ℕ)
    → IsBelowFull bps
    → FitsFee bps pot
    → pot < i128_half
    → compute_precision_fee (pos pot) bps ≡ ok (pos (pot - fee_of bps pot), pos (fee_of bps pot))
unfolding compute_precision_fee
fee_total none pot hb hm hp = ground arith
fee_total (some bps) pot hb hm hp =
    compute_precision_fee_total pot bps (IsBelowFull-IsRate (some bps) hb) hm hp

module _ (q : PrecisionEntry → Bool) (es : List PrecisionEntry) (bps : Option ℕ) (pot : ℕ)
    (distinct : Distinct es) (ne : picked q es ≢ []) (hp : 0 < pot) (hf : pot < i128_half)
    (hb : IsBelowFull bps) where
  assigned :
      (ps : List ℤ)
      → SplitsAmong (pot - fee_of bps pot) (picked q es) ps
      → Returns
          (λ out. total_payout out ≡ pos (pot - fee_of bps pot))
          (assign_payouts (picked q es) ps es)
  assigned ps (t, l) = rw t at (assign-Returns q es ps distinct l)

  settle_winners-Ensures :
      (policy : PrecisionPayoutPolicy) (losers : List ℕ)
      → AreStakes es
      → Ensures
          (λ out. total_payout out ≡ pos (pot - fee_of bps pot))
          (settle_winners es
            (record { winner_indices = picked q es; total_pot = pos pot; loser_indices = losers })
            bps
            policy)
  unfolding settle_winners
  settle_winners-Ensures policy losers hs = grind (
    arith,
    compute_precision_fee-Ensures pot bps (IsBelowFull-IsRate bps hb),
    fee_of-lt bps pot hp hb,
    split_by_policy-Ensures policy es (picked q es) (pot - fee_of bps pot) hs ne,
    assigned,
  )

  settle_winners-Returns :
      (losers : List ℕ)
      → FitsFee bps pot
      → Returns
          (λ out. total_payout out ≡ pos (pot - fee_of bps pot))
          (settle_winners es
            (record { winner_indices = picked q es; total_pot = pos pot; loser_indices = losers })
            bps
            equal)
  unfolding settle_winners
  settle_winners-Returns losers hm = grind (
    arith,
    fee_total bps pot hb hm hf,
    fee_of-lt bps pot hp hb,
    even-Returns (pot - fee_of bps pot) (length (picked q es)) (length-ne (picked q es) ne),
    assigned,
  )

abbrev pub refund_all : List PrecisionEntry → List PrecisionPayoutEntry
refund_all es = map (λ entry. payout_entry entry entry.amount false true) es

-- Nobody won and everyone gets the stake back, or the payouts add up to the pot less the fee.
abbrev pub IsSettled : List PrecisionEntry → List ℕ → ℕ → ℕ → List PrecisionPayoutEntry → Type 0
IsSettled es winners pot fee out =
    ((winners ≡ []) × (out ≡ refund_all es)) ⊎ (total_payout out ≡ pos (pot - fee))

empty-cases : (xs : List ℕ) → (xs ≡ []) ⊎ ((xs ≢ []) × (is_empty xs ≡ false))
empty-cases [] = inl refl
empty-cases (x ∷ xs) = inr ((λ e. cc), refl)

module _ (es : List PrecisionEntry) (final_price : ℕ) (bps : Option ℕ)
    (scoring : PrecisionScoringPolicy) where
  abbrev winners : List ℕ
  winners = (find_precision_winners_with_policy es final_price scoring).winner_indices

  IsSettled-Ensures :
      (policy : PrecisionPayoutPolicy)
      → Distinct es
      → AreStakes es
      → 0 < stakes_total es
      → stakes_total es < i128_half
      → IsBelowFull bps
      → Ensures
          (IsSettled es winners (stakes_total es) (fee_of bps (stakes_total es)))
          (compute_precision_payouts_with_policy es final_price bps scoring policy)
  unfolding compute_precision_payouts_with_policy
  IsSettled-Ensures policy d hs hp hf hb = elim (empty-cases winners) [
    | inl none_wins ↦ ground (arith, total_pot-stakes scoring final_price es hs hf)
    | inr (ne, some_win) ↦ ground (
      arith,
      total_pot-stakes scoring final_price es hs hf,
      winner_indices-picked scoring final_price es,
      settle_winners-Ensures
          (wins scoring final_price (least_from scoring.mode final_price none es)) es bps
          (stakes_total es) d (rw winner_indices-picked at ne) hp hf hb policy
          (find_precision_winners_with_policy es final_price scoring).loser_indices hs,
    )
  ]

  IsSettled-Returns :
      Distinct es
      → AreStakes es
      → 0 < stakes_total es
      → stakes_total es < i128_half
      → IsBelowFull bps
      → FitsFee bps (stakes_total es)
      → Returns
          (IsSettled es winners (stakes_total es) (fee_of bps (stakes_total es)))
          (compute_precision_payouts_with_policy es final_price bps scoring equal)
  unfolding compute_precision_payouts_with_policy
  IsSettled-Returns d hs hp hf hb hm = elim (empty-cases winners) [
    | inl none_wins ↦ ground (arith, total_pot-stakes scoring final_price es hs hf)
    | inr (ne, some_win) ↦ ground (
      arith,
      total_pot-stakes scoring final_price es hs hf,
      winner_indices-picked scoring final_price es,
      settle_winners-Returns
          (wins scoring final_price (least_from scoring.mode final_price none es)) es bps
          (stakes_total es) d (rw winner_indices-picked at ne) hp hf hb
          (find_precision_winners_with_policy es final_price scoring).loser_indices hm,
    )
  ]

-- Entries with distinct indices and non-negative stakes whose sum is positive and fits an `i128`, at a
-- rate below 100 per cent, under any scoring and payout policy: a settlement that returns either has
-- no winner and gives every entry its stake back, or its payouts add up to exactly the stakes less
-- the fee.
pub compute_precision_payouts_with_policy-IsSettled :
    (es : List PrecisionEntry) (final_price : ℕ) (bps : Option ℕ) (scoring : PrecisionScoringPolicy)
    (policy : PrecisionPayoutPolicy) {out : List PrecisionPayoutEntry}
    → Distinct es
    → AreStakes es
    → 0 < stakes_total es
    → stakes_total es < i128_half
    → IsBelowFull bps
    → compute_precision_payouts_with_policy es final_price bps scoring policy ≡ ok out
    → IsSettled es
        (find_precision_winners_with_policy es final_price scoring).winner_indices
        (stakes_total es)
        (fee_of bps (stakes_total es))
        out
compute_precision_payouts_with_policy-IsSettled es final_price bps scoring policy d hs hp hf hb h =
    Ensures-ok _ _ (IsSettled-Ensures es final_price bps scoring policy d hs hp hf hb) h

-- With the default policies such a settlement always returns, provided the taxed pot fits an `i128`:
-- no winner's payout is missing, and the same holds of what it returns.
pub compute_precision_payouts-Returns :
    (es : List PrecisionEntry) (final_price : ℕ) (bps : Option ℕ)
    → Distinct es
    → AreStakes es
    → 0 < stakes_total es
    → stakes_total es < i128_half
    → IsBelowFull bps
    → FitsFee bps (stakes_total es)
    → (out : List PrecisionPayoutEntry) × (compute_precision_payouts es final_price bps ≡ ok out)
      × IsSettled es
          (find_precision_winners es final_price).winner_indices
          (stakes_total es)
          (fee_of bps (stakes_total es))
          out
unfolding compute_precision_payouts find_precision_winners
compute_precision_payouts-Returns es final_price bps d hs hp hf hb hm =
    Returns-ok _ _ (IsSettled-Returns es final_price bps default_policy d hs hp hf hb hm)
