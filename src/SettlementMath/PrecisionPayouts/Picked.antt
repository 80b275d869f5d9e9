-- ===== src/SettlementMath/PrecisionPayouts/Picked.antt =====
-- The winners and the pot of a precision round of contracts/src/settlement_math.rs, in terms of its
-- entries.
use native.Mathlib.Nat.{zero-add}
use xelma_blockchain.Prelude.{
  ℕ, ◌+◌, ◌<◌, ◌≡◌, refl, Bool, false, ◌&&◌, Option, none, some, List, [], ◌∷◌, arith, All, sum_by,
}
use xelma_blockchain.Int.{ℤ, pos, pos_part, ◌+ℤ◌}
use xelma_blockchain.Machine.{i128_half, saturating_add}
use xelma_blockchain.SettlementMath.Precision.{
  PrecisionScoringMode, PrecisionEntry, PrecisionScoringPolicy, is_winner, select_winners,
  winners_of, scan_entries, scan_entry, scan_start, Scan, find_precision_winners_with_policy,
}
use xelma_blockchain.SettlementMath.Precision.Scanning.{
  score, revealed_scores, least_from, scores-scan, min-scan,
}
use xelma_blockchain.SettlementMath.PrecisionPayouts.Assignment.{picked}
use xelma_blockchain.SettlementMath.Pot.Weighted.{IsStake}

-- The entries that a policy picks once the least score is known.
abbrev pub wins : PrecisionScoringPolicy → ℕ → Option ℕ → PrecisionEntry → Bool
wins policy final_price none e = false
wins policy final_price (some best) e =
    e.revealed && is_winner policy.confidence_band best (score policy.mode final_price e)

select_winners-picked :
    (policy : PrecisionScoringPolicy) (final_price best : ℕ) (es : List PrecisionEntry)
    → select_winners policy.confidence_band best (revealed_scores policy.mode final_price es)
      ≡ picked (wins policy final_price (some best)) es
unfolding select_winners
select_winners-picked policy final_price best [] = refl
select_winners-picked policy final_price best (e ∷ es) =
    ground (arith, select_winners-picked policy final_price best es)

picked-none :
    (policy : PrecisionScoringPolicy) (final_price : ℕ) (es : List PrecisionEntry)
    → [] ≡ picked (wins policy final_price none) es
picked-none policy final_price [] = refl
picked-none policy final_price (e ∷ es) = picked-none policy final_price es

winners_of-picked :
    (policy : PrecisionScoringPolicy) (final_price : ℕ) (m : Option ℕ) (es : List PrecisionEntry)
    → winners_of policy.confidence_band m (revealed_scores policy.mode final_price es)
      ≡ picked (wins policy final_price m) es
unfolding winners_of
winners_of-picked policy final_price none es = picked-none policy final_price es
winners_of-picked policy final_price (some best) es =
    select_winners-picked policy final_price best es

pub winner_indices-picked :
    (policy : PrecisionScoringPolicy) (final_price : ℕ) (es : List PrecisionEntry)
    → (find_precision_winners_with_policy es final_price policy).winner_indices
      ≡ picked (wins policy final_price (least_from policy.mode final_price none es)) es
unfolding find_precision_winners_with_policy
winner_indices-picked policy final_price es =
    rw
      (
        scores-scan policy.mode final_price es scan_start,
        min-scan policy.mode final_price es scan_start,
      )
      (winners_of-picked policy final_price _ es)

abbrev pub AreStakes : List PrecisionEntry → Type 0
AreStakes es = All (λ e. IsStake e.amount) es

abbrev pub stakes_total : List PrecisionEntry → ℕ
stakes_total es = sum_by (λ e. pos_part e.amount) es

saturating_add_fits :
    (a : ℕ) (b : ℤ)
    → IsStake b
    → a + pos_part b < i128_half
    → saturating_add (pos a) b ≡ pos (a + pos_part b)
unfolding saturating_add ◌+ℤ◌
saturating_add_fits a b h k = ground arith

pot-scan :
    (mode : PrecisionScoringMode) (final_price acc : ℕ) (es : List PrecisionEntry) (s : Scan)
    → AreStakes es
    → s.total_pot ≡ pos acc
    → acc + stakes_total es < i128_half
    → (scan_entries mode final_price es s).total_pot ≡ pos (acc + stakes_total es)
unfolding scan_entries
pot-scan mode final_price acc [] s h e f = ground arith
pot-scan mode final_price acc (x ∷ es) s h e f = ground (
  arith,
  saturating_add_fits acc x.amount h.0,
  pot-scan mode final_price (acc + pos_part x.amount) es (scan_entry mode final_price x s) h.1,
)

pub total_pot-stakes :
    (policy : PrecisionScoringPolicy) (final_price : ℕ) (es : List PrecisionEntry)
    → AreStakes es
    → stakes_total es < i128_half
    → (find_precision_winners_with_policy es final_price policy).total_pot ≡ pos (stakes_total es)
unfolding find_precision_winners_with_policy
total_pot-stakes policy final_price es h f =
    rw zero-add at (pot-scan policy.mode final_price 0 es scan_start h refl (omega arith))
