-- ===== src/SettlementMath/Precision/Scanning.antt =====
-- What the first loop of `find_precision_winners_with_policy` has computed at its end.
use mathlib.Core.List.{append_assoc, append-nil}
use xelma_blockchain.Prelude.{
  ℕ, ◌≤◌, ◌<◌, ◌≡◌, refl, ◌⊎◌, Bool, true, false, Option, none, some, List, [], ◌∷◌, ◌++◌, arith,
  leb, ◌==◌, ◌&&◌, ◌||◌, not, if◌then◌else◌, ◌≢◌,
}
use xelma_blockchain.SettlementMath.Precision.{
  PrecisionScoringMode, PrecisionEntry, Scan, score_of, lower_min, scan_entry, scan_entries,
}

module _ (mode : PrecisionScoringMode) (final_price : ℕ) where
  abbrev pub score : PrecisionEntry → ℕ
  score e = score_of mode e.predicted_price final_price

  -- The scores of the revealed entries, in order.
  abbrev pub revealed_scores : List PrecisionEntry → List (ℕ × ℕ)
  revealed_scores [] = []
  revealed_scores (e ∷ es) =
      if e.revealed then (e.index, score e) ∷ revealed_scores es else revealed_scores es

  abbrev pub least_from : Option ℕ → List PrecisionEntry → Option ℕ
  least_from m [] = m
  least_from m (e ∷ es) = least_from (if e.revealed then lower_min (score e) m else m) es

  pub scores-scan :
      (es : List PrecisionEntry) (s : Scan)
      → (scan_entries mode final_price es s).scores ≡ s.scores ++ revealed_scores es
  unfolding scan_entries
  scores-scan [] s = simp append-nil
  scores-scan (e ∷ es) s = ground (
    arith,
    scores-scan es (scan_entry mode final_price e s),
    append_assoc s.scores ((e.index, score e) ∷ []) (revealed_scores es),
  )

  pub min-scan :
      (es : List PrecisionEntry) (s : Scan)
      → (scan_entries mode final_price es s).min_score ≡ least_from s.min_score es
  unfolding scan_entries
  min-scan [] s = refl
  min-scan (e ∷ es) s = ground (arith, min-scan es (scan_entry mode final_price e s))

  -- No revealed entry scores below `n`.
  abbrev pub is_lower : ℕ → List PrecisionEntry → Bool
  is_lower n [] = true
  is_lower n (e ∷ es) = (not e.revealed || leb n (score e)) && is_lower n es

  -- Some revealed entry scores `n`.
  abbrev pub is_attained : ℕ → List PrecisionEntry → Bool
  is_attained n [] = false
  is_attained n (e ∷ es) = (e.revealed && score e == n) || is_attained n es

  least_from-some :
      (m b : ℕ) (es : List PrecisionEntry)
      → least_from (some m) es ≡ some b
      → (is_lower b es ≡ true) × (b ≤ m) × ((b ≡ m) ⊎ (is_attained b es ≡ true))
  unfolding lower_min
  least_from-some m b [] h = (refl, ground arith, ground arith)
  least_from-some m b (e ∷ es) h =
      ground (arith, least_from-some m b es, least_from-some (score e) b es)

  pub least_from-none :
      (b : ℕ) (es : List PrecisionEntry)
      → least_from none es ≡ some b
      → (is_lower b es ≡ true) × (is_attained b es ≡ true)
  unfolding lower_min
  least_from-none b [] h = cc
  least_from-none b (e ∷ es) h =
      ground (arith, least_from-none b es, least_from-some (score e) b es)

  least_from-some_ne : (m : ℕ) (es : List PrecisionEntry) → least_from (some m) es ≢ none
  unfolding lower_min
  least_from-some_ne m [] = λ h. cc
  least_from-some_ne m (e ∷ es) =
      ground (arith, least_from-some_ne m es, least_from-some_ne (score e) es)

  -- An attained lower bound decides who is closest.
  pub above_attained :
      (b n : ℕ) (es : List PrecisionEntry) → is_attained b es ≡ true → b < n → is_lower n es ≡ false
  above_attained b n [] h lt = cc
  above_attained b n (e ∷ es) h lt = ground (arith, above_attained b n es)

  pub below_lower :
      (b n : ℕ) (es : List PrecisionEntry) → is_lower b es ≡ true → n ≤ b → is_lower n es ≡ true
  below_lower b n [] h le = refl
  below_lower b n (e ∷ es) h le = ground (arith, below_lower b n es)

  pub none_revealed :
      (es : List PrecisionEntry) → least_from none es ≡ none → revealed_scores es ≡ []
  unfolding lower_min
  none_revealed [] h = refl
  none_revealed (e ∷ es) h = ground (arith, none_revealed es, least_from-some_ne (score e) es)
