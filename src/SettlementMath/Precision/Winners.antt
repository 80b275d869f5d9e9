-- ===== src/SettlementMath/Precision/Winners.antt =====
-- The winners of a precision round are the revealed entries that no revealed entry beats.
use xelma_blockchain.Prelude.{
  ℕ, ◌≡◌, refl, true, Option, none, some, List, [], ◌∷◌, ◌&&◌, arith, if◌then◌else◌,
}
use xelma_blockchain.SettlementMath.Precision.{
  PrecisionScoringMode, PrecisionEntry, absolute_distance, select_winners, winners_of,
  find_precision_winners, scan_start,
}
use xelma_blockchain.SettlementMath.Precision.Scanning.{
  score, revealed_scores, least_from, scores-scan, min-scan, is_lower, is_attained, least_from-none,
  above_attained, below_lower, none_revealed,
}

module _ (mode : PrecisionScoringMode) (final_price : ℕ) where
  -- The indices of the entries of the second list that are revealed and that no revealed entry of the
  -- first list beats.
  abbrev pub closest : List PrecisionEntry → List PrecisionEntry → List ℕ
  closest all [] = []
  closest all (e ∷ es) =
      if e.revealed && is_lower mode final_price (score mode final_price e) all
      then e.index ∷ closest all es
      else closest all es

  select_winners-closest :
      (b : ℕ) (all es : List PrecisionEntry)
      → is_lower mode final_price b all ≡ true
      → is_attained mode final_price b all ≡ true
      → is_lower mode final_price b es ≡ true
      → select_winners none b (revealed_scores mode final_price es) ≡ closest all es
  unfolding select_winners
  select_winners-closest b all [] lo at he = refl
  select_winners-closest b all (e ∷ es) lo at he = ground (
    arith,
    select_winners-closest b all es lo at,
    above_attained mode final_price b (score mode final_price e) all at,
    below_lower mode final_price b (score mode final_price e) all lo,
  )

  nobody-closest_in :
      (all es : List PrecisionEntry)
      → revealed_scores mode final_price es ≡ []
      → [] ≡ closest all es
  nobody-closest_in all [] h = refl
  nobody-closest_in all (e ∷ es) h = ground (arith, nobody-closest_in all es)

  nobody-closest :
      (es : List PrecisionEntry) → revealed_scores mode final_price es ≡ [] → [] ≡ closest es es
  nobody-closest es h = nobody-closest_in es es h

  winners_of-closest :
      (m : Option ℕ) (es : List PrecisionEntry)
      → least_from mode final_price none es ≡ m
      → winners_of none m (revealed_scores mode final_price es) ≡ closest es es
  unfolding winners_of
  winners_of-closest none es h = nobody-closest es (none_revealed mode final_price es h)
  winners_of-closest (some b) es h =
      let (lo, at) = least_from-none mode final_price b es h in
      select_winners-closest b es es lo at lo

-- Under the default policy the winners are, in the order of the entries, exactly the revealed ones
-- whose distance from the final price no revealed entry undercuts: all of them where several tie, and
-- nobody where nothing is revealed.
pub find_precision_winners-closest :
    (entries : List PrecisionEntry) (final_price : ℕ)
    → (find_precision_winners entries final_price).winner_indices
      ≡ closest absolute_distance final_price entries entries
unfolding find_precision_winners
find_precision_winners-closest entries final_price =
    rw
      (
        scores-scan absolute_distance final_price entries scan_start,
        min-scan absolute_distance final_price entries scan_start,
      )
      (winners_of-closest absolute_distance final_price _ entries refl)
