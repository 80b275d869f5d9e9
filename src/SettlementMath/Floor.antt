-- ===== src/SettlementMath/Floor.antt =====
-- Rounded-down proportional shares of an amount add up to no more than the amount.
use xelma_blockchain.Prelude.{ℕ, ◌*◌, ◌/◌, ◌≤◌, ◌<◌, List, [], ◌∷◌, arith, sum_by}

share-floor : (s t w : ℕ) → s * t / w * w ≤ s * t
share-floor s t w = grind arith

cancel : (a t w : ℕ) → 0 < w → a * w ≤ t * w → a ≤ t
cancel a t w h k = grind arith

scale : (s t w : ℕ) → s ≤ w → s * t ≤ t * w
scale s t w h = grind arith

module _ {ℓ} {A : Type ℓ} (f : A → ℕ) (w t : ℕ) where
  sum_by-floor : (xs : List A) → sum_by (λ x. f x * t / w) xs * w ≤ sum_by f xs * t
  sum_by-floor [] = omega arith
  sum_by-floor (x ∷ xs) = omega (arith, share-floor (f x) t w, sum_by-floor xs)

  pub sum_by-floor-le : (xs : List A) → 0 < w → sum_by f xs ≤ w → sum_by (λ x. f x * t / w) xs ≤ t
  sum_by-floor-le xs hw hs =
      cancel (sum_by (λ x. f x * t / w) xs) t w hw
        (omega (arith, sum_by-floor xs, scale (sum_by f xs) t w hs))
