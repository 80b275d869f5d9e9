-- ===== src/SettlementMath/Precision.antt =====
-- Winner determination of contracts/src/settlement_math.rs: `find_precision_winners` and
-- `find_precision_winners_with_policy`. Prices and scores are `u128`, indices `usize`.
pub mod Scanning
pub mod Winners
use xelma_blockchain.Prelude.{
  ℕ, zero, suc, ◌-◌, ◌+◌, ◌*◌, ◌/◌, Bool, true, false, not, ◌||◌, Option, none, some, List, [], ◌∷◌,
  ◌++◌, ltb, leb, ◌==◌, if◌then◌else◌,
}
use xelma_blockchain.Int.{ℤ, pos}
use xelma_blockchain.Machine.{saturating_add, saturate_u, u128_mod}

pub data PrecisionPayoutPolicy : Type 0 where
  equal stake_weighted : PrecisionPayoutPolicy

pub data PrecisionScoringMode : Type 0 where
  absolute_distance relative_distance : PrecisionScoringMode

pub record PrecisionScoringPolicy : Type 0 where
  pub mode : PrecisionScoringMode
  pub confidence_band : Option ℕ

pub record PrecisionEntry : Type 0 where
  pub index : ℕ
  pub predicted_price : ℕ
  pub amount : ℤ
  pub revealed : Bool

pub record PrecisionWinnersResult : Type 0 where
  pub winner_indices : List ℕ
  pub total_pot : ℤ
  pub loser_indices : List ℕ

-- `abs_diff` of the source, a difference of two `u128` either way round.
unfoldable pub abs_diff : ℕ → ℕ → ℕ
abs_diff predicted_price final_price =
    if leb final_price predicted_price
    then predicted_price - final_price
    else final_price - predicted_price

unfoldable pub score_of : PrecisionScoringMode → ℕ → ℕ → ℕ
unfolding abs_diff saturate_u
score_of absolute_distance predicted_price final_price = abs_diff predicted_price final_price
score_of relative_distance predicted_price final_price =
    if ltb 0 final_price
    then saturate_u u128_mod (abs_diff predicted_price final_price * 10_000) / final_price
    else abs_diff predicted_price final_price

-- The variables of the first loop.
pub record Scan : Type 0 where
  pub total_pot : ℤ
  pub scores : List (ℕ × ℕ)
  pub min_score : Option ℕ

unfoldable pub lower_min : ℕ → Option ℕ → Option ℕ
lower_min score none = some score
lower_min score (some cur_min) = if ltb score cur_min then some score else some cur_min

-- One round of the first loop.
unfoldable pub scan_entry : PrecisionScoringMode → ℕ → PrecisionEntry → Scan → Scan
unfolding lower_min
scan_entry mode final_price entry s =
    let pot = saturating_add s.total_pot entry.amount in
    let score = score_of mode entry.predicted_price final_price in
    if not entry.revealed then record s { total_pot = pot } else record {
      total_pot = pot;
      scores = s.scores ++ (entry.index, score) ∷ [];
      min_score = lower_min score s.min_score;
    }

unfoldable pub scan_entries : PrecisionScoringMode → ℕ → List PrecisionEntry → Scan → Scan
unfolding scan_entry
scan_entries mode final_price [] s = s
scan_entries mode final_price (entry ∷ entries) s =
    scan_entries mode final_price entries (scan_entry mode final_price entry s)

abbrev pub scan_start : Scan
scan_start = record { total_pot = pos 0; scores = []; min_score = none }

unfoldable pub is_winner : Option ℕ → ℕ → ℕ → Bool
unfolding saturate_u
is_winner none best score = score == best
is_winner (some band) best score = leb score band || leb score (saturate_u u128_mod (best + band))

-- The second loop.
unfoldable pub select_winners : Option ℕ → ℕ → List (ℕ × ℕ) → List ℕ
unfolding is_winner
select_winners band best [] = []
select_winners band best ((idx, score) ∷ scores) =
    if is_winner band best score
    then idx ∷ select_winners band best scores
    else select_winners band best scores

unfoldable pub winners_of : Option ℕ → Option ℕ → List (ℕ × ℕ) → List ℕ
unfolding select_winners
winners_of band none scores = []
winners_of band (some best) scores = select_winners band best scores

-- `winner_indices.contains(&idx)`
unfoldable pub contains : List ℕ → ℕ → Bool
contains [] idx = false
contains (w ∷ ws) idx = w == idx || contains ws idx

-- The last loop.
unfoldable pub losers_of : List ℕ → List PrecisionEntry → List ℕ
unfolding contains
losers_of winners [] = []
losers_of winners (entry ∷ entries) =
    if not (contains winners entry.index)
    then entry.index ∷ losers_of winners entries
    else losers_of winners entries

unfoldable pub find_precision_winners_with_policy :
    List PrecisionEntry → ℕ → PrecisionScoringPolicy → PrecisionWinnersResult
unfolding scan_entries winners_of losers_of
find_precision_winners_with_policy entries final_price policy =
    let s = scan_entries policy.mode final_price entries scan_start in
    let winner_indices = winners_of policy.confidence_band s.min_score s.scores in
    record {
      winner_indices = winner_indices;
      total_pot = s.total_pot;
      loser_indices = losers_of winner_indices entries;
    }

abbrev pub default_policy : PrecisionScoringPolicy
default_policy = record { mode = absolute_distance; confidence_band = none }

unfoldable pub find_precision_winners : List PrecisionEntry → ℕ → PrecisionWinnersResult
unfolding find_precision_winners_with_policy
find_precision_winners entries final_price =
    find_precision_winners_with_policy entries final_price default_policy
