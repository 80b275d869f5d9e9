-- ===== src/SettlementMath/UpDown/Shares.antt =====
-- The rounded-down shares of the winning side together stay within what is distributed.
use xelma_blockchain.Prelude.{
  ℕ, ◌+◌, ◌*◌, ◌/◌, ◌≡◌, refl, Bool, true, false, List, [], ◌∷◌, map, arith, All, sum_by, bool_eq,
  if◌then◌else◌,
}
use xelma_blockchain.Int.{pos, pos_part, ◌*ℤ◌, ◌+ℤ◌, ◌≤ℤ◌, sum_ℤ, pos-add}
use xelma_blockchain.SettlementMath.UpDown.{UpDownPosition}
use xelma_blockchain.SettlementMath.UpDown.Entries.{paid_entry}

abbrev pub IsStake : UpDownPosition → Type 0
IsStake p = pos 0 ≤ℤ p.amount

-- What the positions of one side have staked.
abbrev pub side_stake : Bool → UpDownPosition → ℕ
side_stake side p = if bool_eq p.side_up side then pos_part p.amount else 0

abbrev pub side_total : Bool → List UpDownPosition → ℕ
side_total side ps = sum_by (side_stake side) ps

-- A position's payout, over ℕ.
abbrev pub paid : Bool → ℕ → ℕ → UpDownPosition → ℕ
paid side w t p = side_stake side p * t / w

paid_entry-paid :
    (side : Bool) (w t : ℕ) (p : UpDownPosition)
    → IsStake p
    → (paid_entry side (pos w) (pos t) p).payout ≡ pos (paid side w t p)
unfolding ◌*ℤ◌
paid_entry-paid side w t p h = grind arith

pub sum_ℤ-paid :
    (side : Bool) (w t : ℕ) (ps : List UpDownPosition)
    → All IsStake ps
    → sum_ℤ (λ e. e.payout) (map (paid_entry side (pos w) (pos t)) ps)
      ≡ pos (sum_by (paid side w t) ps)
sum_ℤ-paid side w t [] h = refl
sum_ℤ-paid side w t (p ∷ ps) h =
    rw (paid_entry-paid side w t p h.0, sum_ℤ-paid side w t ps h.1, pos-add)

pub sum_ℤ-stakes :
    (ps : List UpDownPosition)
    → All IsStake ps
    → sum_ℤ (λ p. p.amount) ps ≡ pos (side_total true ps + side_total false ps)
unfolding ◌+ℤ◌
sum_ℤ-stakes [] h = refl
sum_ℤ-stakes (p ∷ ps) h = ground (arith, sum_ℤ-stakes ps h.1)
