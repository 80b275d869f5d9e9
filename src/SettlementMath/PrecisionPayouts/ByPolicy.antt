-- ===== src/SettlementMath/PrecisionPayouts/ByPolicy.antt =====
-- The split among the winners under either payout policy of contracts/src/settlement_math.rs.
use xelma_blockchain.Prelude.{
  ℕ, zero, suc, ◌<◌, ◌≡◌, ◌≢◌, refl, some, List, [], ◌∷◌, length, get_elem?, arith, All,
}
use xelma_blockchain.Int.{ℤ, pos}
use xelma_blockchain.Machine.{i128_half}
use xelma_blockchain.Errors.{Result, ok, err, panic, ◌>>=◌, Ensures, Returns-Ensures}
use xelma_blockchain.SettlementMath.Pot.{split_pot_among_winners, split_pot_stake_weighted}
use xelma_blockchain.SettlementMath.Pot.Weighted.{
  IsStake, split-Ensures, even-Returns, length-ne, total,
}
use xelma_blockchain.SettlementMath.Precision.{
  PrecisionEntry, PrecisionPayoutPolicy, equal, stake_weighted,
}
use xelma_blockchain.SettlementMath.PrecisionPayouts.{stakes_at, split_by_policy}
use xelma_blockchain.SettlementMath.PrecisionPayouts.Picked.{AreStakes}

get_elem?-IsStake :
    (es : List PrecisionEntry) (i : ℕ) {e : PrecisionEntry}
    → AreStakes es
    → get_elem? es i ≡ some e
    → IsStake e.amount
get_elem?-IsStake [] i h eq = cc
get_elem?-IsStake (x ∷ es) zero h eq = ground arith
get_elem?-IsStake (x ∷ es) (suc i) h eq = get_elem?-IsStake es i h.1 eq

stakes_at-Ensures :
    (es : List PrecisionEntry) (indices : List ℕ)
    → AreStakes es
    → Ensures (λ ss. (length ss ≡ length indices) × All IsStake ss) (stakes_at es indices)
unfolding stakes_at
stakes_at-Ensures es [] h = (refl, tt)
stakes_at-Ensures es (i ∷ indices) h =
    grind (arith, stakes_at-Ensures es indices h, get_elem?-IsStake)

same-length : {A B : Type 0} (xs : List A) (ys : List B) → length xs ≡ length ys → ys ≢ [] → xs ≢ []
same-length [] [] e ne = absurd (ne refl)
same-length [] (y ∷ ys) e ne = absurd (omega arith)
same-length (x ∷ xs) ys e ne = λ p. cc

-- A split among the winners at these indices.
abbrev pub SplitsAmong : ℕ → List ℕ → List ℤ → Type 0
SplitsAmong d indices ps = (total ps ≡ pos d) × (length ps ≡ length indices)

pub split_by_policy-Ensures :
    (policy : PrecisionPayoutPolicy) (es : List PrecisionEntry) (indices : List ℕ) (d : ℕ)
    → AreStakes es
    → indices ≢ []
    → 0 < d
    → d < i128_half
    → Ensures (SplitsAmong d indices) (split_by_policy policy es indices (pos d))
unfolding split_by_policy
split_by_policy-Ensures equal es indices d h ne hd hf =
    Returns-Ensures (SplitsAmong d indices) (split_pot_among_winners (pos d) (length indices))
      (even-Returns d (length indices) (length-ne indices ne) hd hf)
split_by_policy-Ensures stake_weighted es indices d h ne hd hf =
    split_at (stakes_at es indices) (stakes_at-Ensures es indices h)
  where
    split_at :
        (m : Result (List ℤ))
        → Ensures (λ ss. (length ss ≡ length indices) × All IsStake ss) m
        → Ensures (SplitsAmong d indices) (m >>= split_pot_stake_weighted (pos d))
    split_at (ok ss) (l, st) =
        ground (arith, split-Ensures d ss (same-length ss indices l ne) st hd hf)
    split_at (err e) q = tt
    split_at panic q = tt
