-- ===== src/SettlementMath/UpDown/Solvency.antt =====
-- An up/down round of contracts/src/settlement_math.rs pays out no more than was staked.
use xelma_blockchain.Prelude.{
  ℕ, suc, ◌+◌, ◌-◌, ◌<◌, ◌≡◌, refl, Bool, true, false, Option, List, [], ◌∷◌, map, arith, All,
  Bool-cases, inl, inr, zero, ◌||◌, ◌⊎◌,
}
use xelma_blockchain.Int.{ℤ, pos, ◌≤ℤ◌, sum_ℤ, pos-add}
use xelma_blockchain.SettlementMath.Common.{
  PriceDirection, up, down, unchanged, classify_price_direction, is_one_sided_pool,
}
use native.Mathlib.Nat.{add_comm}
use xelma_blockchain.Machine.Laws.{checked_add-eq-some}
use xelma_blockchain.Errors.{ok, Ensures, Ensures-ok}
use xelma_blockchain.SettlementMath.Floor.{sum_by-floor-le}
use xelma_blockchain.SettlementMath.Fees.Conservation.{
  fee_of, IsRate, compute_updown_fee-Ensures, fee_of-le,
}
use xelma_blockchain.SettlementMath.UpDown.{
  UpDownPosition, UpDownPayoutEntry, settle_side, settle_direction, compute_updown_payouts,
  refund_entry, is_unchanged,
}
use xelma_blockchain.SettlementMath.UpDown.Entries.{paid_entry, pay_positions-Ensures}
use xelma_blockchain.SettlementMath.UpDown.Shares.{
  IsStake, side_total, side_stake, sum_ℤ-paid, sum_ℤ-stakes,
}

pub total_payout : List UpDownPayoutEntry → ℤ
total_payout es = sum_ℤ (λ e. e.payout) es

settle_side-Ensures :
    (side : Bool) (w l : ℕ) (bps : Option ℕ) (ps : List UpDownPosition)
    → 0 < w
    → IsRate bps
    → Ensures
        (λ es. es ≡ map (paid_entry side (pos w) (pos (w + l - fee_of bps (w + l)))) ps)
        (settle_side side (pos w) (pos l) bps ps)
unfolding settle_side
settle_side-Ensures side w l bps ps hw hb = grind (
  arith,
  compute_updown_fee-Ensures w l bps hb,
  checked_add-eq-some,
  pos-add,
  pay_positions-Ensures,
  fee_of-le bps (w + l) hb,
)

-- The pools of a round are what its positions have staked.
pub record IsBacked (ps : List UpDownPosition) (pool_up pool_down : ℕ) : Type 0 where
  pub stakes : All IsStake ps
  pub up_total : side_total true ps ≡ pool_up
  pub down_total : side_total false ps ≡ pool_down

refund-total :
    (ps : List UpDownPosition) → total_payout (map refund_entry ps) ≡ sum_ℤ (λ p. p.amount) ps
unfolding total_payout
refund-total [] = refl
refund-total (p ∷ ps) = rw (refund-total ps)

refunds-eq-pot :
    (ps : List UpDownPosition) (u d : ℕ)
    → IsBacked ps u d
    → total_payout (map refund_entry ps) ≡ pos (u + d)
refunds-eq-pot ps u d b = rw (refund-total ps, sum_ℤ-stakes ps b.stakes, b.up_total, b.down_total)

paid-total :
    (side : Bool) (w t : ℕ) (ps : List UpDownPosition)
    → 0 < w
    → All IsStake ps
    → side_total side ps ≡ w
    → total_payout (map (paid_entry side (pos w) (pos t)) ps) ≤ℤ pos t
unfolding total_payout
paid-total side w t ps hw hs e =
    rw (sum_ℤ-paid side w t ps hs) (omega (arith, sum_by-floor-le (side_stake side) w t ps hw))

-- A round ends in one of two ways: everyone gets the stake back, or the winners share the pot and
-- leave at least the fee in it.
abbrev pub IsSolvent : List UpDownPosition → ℕ → ℕ → List UpDownPayoutEntry → Type 0
IsSolvent ps pot fee es =
    ((es ≡ map refund_entry ps) × (total_payout es ≡ pos pot))
    ⊎ (total_payout es ≤ℤ pos (pot - fee))

settle_side-IsSolvent :
    (side : Bool) (w l : ℕ) (bps : Option ℕ) (ps : List UpDownPosition)
    → IsRate bps
    → All IsStake ps
    → side_total side ps ≡ w
    → total_payout (map refund_entry ps) ≡ pos (w + l)
    → Ensures (IsSolvent ps (w + l) (fee_of bps (w + l))) (settle_side side (pos w) (pos l) bps ps)
settle_side-IsSolvent side zero l bps ps hb hs e r = unfold settle_side in inl (refl, r)
settle_side-IsSolvent side (suc w) l bps ps hb hs e r = ground (
  arith,
  settle_side-Ensures side (suc w) l bps ps (omega arith) hb,
  paid-total side (suc w) (suc w + l - fee_of bps (suc w + l)) ps (omega arith) hs e,
)

settle_direction-IsSolvent :
    (direction : PriceDirection) (ps : List UpDownPosition) (u d : ℕ) (bps : Option ℕ)
    → IsBacked ps u d
    → IsRate bps
    → Ensures
        (IsSolvent ps (u + d) (fee_of bps (u + d)))
        (settle_direction direction (pos u) (pos d) bps ps)
unfolding settle_direction
settle_direction-IsSolvent up ps u d bps b hb =
    settle_side-IsSolvent true u d bps ps hb b.stakes b.up_total (refunds-eq-pot ps u d b)
settle_direction-IsSolvent down ps u d bps b hb = rw (add_comm u d) (
    settle_side-IsSolvent false d u bps ps hb b.stakes b.down_total
      (rw (add_comm d u) (refunds-eq-pot ps u d b)))
settle_direction-IsSolvent unchanged ps u d bps b hb = tt

payouts-Ensures :
    (ps : List UpDownPosition) (start final u d : ℕ) (bps : Option ℕ)
    → IsBacked ps u d
    → IsRate bps
    → Ensures
        (IsSolvent ps (u + d) (fee_of bps (u + d)))
        (compute_updown_payouts ps start final (pos u) (pos d) bps)
unfolding compute_updown_payouts
payouts-Ensures ps start final u d bps b hb =
    elim (Bool-cases
      (is_unchanged (classify_price_direction start final) || is_one_sided_pool (pos u) (pos d))) [
        | inl refund ↦ rw (refund) (inl (refl, refunds-eq-pot ps u d b))
        | inr competitive ↦
            rw competitive
              (settle_direction-IsSolvent (classify_price_direction start final) ps u d bps b hb)
      ]

-- If the pools are what the positions have staked and the rate is at most 100 per cent, a settlement
-- that returns is solvent: it refunds every position, payouts adding up to the pot, or its payouts
-- add up to no more than the pot less the fee.
pub compute_updown_payouts-IsSolvent :
    (ps : List UpDownPosition) (start final u d : ℕ) (bps : Option ℕ) {es : List UpDownPayoutEntry}
    → IsBacked ps u d
    → IsRate bps
    → compute_updown_payouts ps start final (pos u) (pos d) bps ≡ ok es
    → IsSolvent ps (u + d) (fee_of bps (u + d)) es
compute_updown_payouts-IsSolvent ps start final u d bps b hb h =
    Ensures-ok _ _ (payouts-Ensures ps start final u d bps b hb) h
