-- ===== src/SettlementMath/UpDown/Payouts.antt =====
-- The exact outcome of an up/down round of contracts/src/settlement_math.rs where nothing overflows.
use native.Mathlib.Nat.{add_comm}
use xelma_blockchain.Prelude.{
  ℕ, ◌+◌, ◌-◌, ◌*◌, ◌/◌, ◌≤◌, ◌<◌, ◌≡◌, refl, Bool, true, false, Option, none, some, List, [], ◌∷◌,
  map, arith, All, if◌then◌else◌, ltb, ◌≢◌,
}
use xelma_blockchain.Int.{ℤ, pos, negsuc, pos_part, ◌*ℤ◌, ◌≤ℤ◌}
use xelma_blockchain.Machine.{i128_half}
use xelma_blockchain.Machine.Laws.{checked_mul_fits, checked_div_fits, checked_add_fits}
use xelma_blockchain.Errors.{ok}
use xelma_blockchain.SettlementMath.Common.{classify_price_direction}
use xelma_blockchain.SettlementMath.Fees.{compute_updown_fee}
use xelma_blockchain.SettlementMath.Fees.Conservation.{
  fee_of, fee_of-le, IsRate, fee_split, compute_updown_fee_total,
}
use xelma_blockchain.SettlementMath.UpDown.{
  UpDownPosition, compute_updown_winner_payout, pay_positions, settle_side, compute_updown_payouts,
}
use xelma_blockchain.SettlementMath.UpDown.Entries.{paid_entry}
use xelma_blockchain.SettlementMath.UpDown.Shares.{IsStake}

-- The stake is not negative, and its product with the pot fits an `i128`.
abbrev pub IsPayable : ℕ → UpDownPosition → Type 0
IsPayable pot p = IsStake p × (pos_part p.amount * pot < i128_half)

compute_updown_winner_payout_total :
    (s w t : ℕ)
    → 0 < w
    → s * t < i128_half
    → compute_updown_winner_payout (pos s) (pos w) (pos t) ≡ ok (pos (s * t / w))
unfolding compute_updown_winner_payout
compute_updown_winner_payout_total s w t hw hs = grind (arith, checked_mul_fits, checked_div_fits)

shrink : (a pot t : ℕ) → t ≤ pot → a * pot < i128_half → a * t < i128_half
shrink a pot t h k = grind arith

position_total :
    (side : Bool) (w t : ℕ) (a : ℤ)
    → 0 < w
    → pos 0 ≤ℤ a
    → pos_part a * t < i128_half
    → compute_updown_winner_payout a (pos w) (pos t) ≡ ok (pos (pos_part a * t / w))
position_total side w t (negsuc n) hw ha hs = absurd (omega arith)
position_total side w t (pos n) hw ha hs = compute_updown_winner_payout_total n w t hw hs

pay_positions_total :
    (side : Bool) (w t pot : ℕ) (ps : List UpDownPosition)
    → 0 < w
    → t ≤ pot
    → All (IsPayable pot) ps
    → pay_positions side (pos w) (pos t) ps ≡ ok (map (paid_entry side (pos w) (pos t)) ps)
unfolding pay_positions ◌*ℤ◌
pay_positions_total side w t pot [] hw ht hp = refl
pay_positions_total side w t pot (p ∷ ps) hw ht hp = ground (
  arith,
  position_total side w t p.amount hw hp.0.0 (shrink (pos_part p.amount) pot t ht hp.0.1),
  pay_positions_total side w t pot ps hw ht hp.1,
)

-- No overflow can occur: the pot and the taxed pot fit.
abbrev pub FitsRate : Option ℕ → ℕ → Type 0
FitsRate none pot = pot < i128_half
FitsRate (some bps) pot = (pot < i128_half) × (bps ≤ 10_000) × (pot * bps < i128_half)

pot_fits : (bps : Option ℕ) (pot : ℕ) → FitsRate bps pot → pot < i128_half
pot_fits none pot h = h
pot_fits (some bps) pot h = h.0

pub fee_total :
    (w l : ℕ) (bps : Option ℕ)
    → FitsRate bps (w + l)
    → compute_updown_fee (pos w) (pos l) bps ≡ ok (fee_split w l (fee_of bps (w + l)))
unfolding compute_updown_fee
fee_total w l none h = ground arith
fee_total w l (some bps) h = compute_updown_fee_total w l bps h.1 h.0 h.2

pub FitsRate-IsRate : (bps : Option ℕ) (pot : ℕ) → FitsRate bps pot → IsRate bps
FitsRate-IsRate none pot h = tt
FitsRate-IsRate (some bps) pot h = h.1

settle_side_total :
    (side : Bool) (w l : ℕ) (bps : Option ℕ) (ps : List UpDownPosition)
    → 0 < w
    → FitsRate bps (w + l)
    → All (IsPayable (w + l)) ps
    → settle_side side (pos w) (pos l) bps ps
      ≡ ok (map (paid_entry side (pos w) (pos (w + l - fee_of bps (w + l)))) ps)
unfolding settle_side
settle_side_total side w l bps ps hw hf hp = grind (
  arith,
  fee_total w l bps hf,
  fee_of-le bps (w + l) (FitsRate-IsRate bps (w + l) hf),
  pot_fits bps (w + l) hf,
  checked_add_fits,
  pay_positions_total side w (w + l - fee_of bps (w + l)) (w + l) ps hw,
)

-- If both pools hold stakes, the price has moved and no product overflows, the settlement returns
-- one entry for each position, in order: a position on the side that the price took gets its stake
-- times the pot less the fee, divided by its side's pool and rounded down; any other gets 0.
pub compute_updown_payouts_total :
    (ps : List UpDownPosition) (start final u d : ℕ) (bps : Option ℕ)
    → start ≢ final
    → 0 < u
    → 0 < d
    → FitsRate bps (u + d)
    → All (IsPayable (u + d)) ps
    → let went_up = ltb start final in
      compute_updown_payouts ps start final (pos u) (pos d) bps
      ≡ ok (
          map
            (paid_entry went_up (pos (if went_up then u else d)) (pos (u + d - fee_of bps (u + d))))
            ps)
unfolding compute_updown_payouts classify_price_direction
compute_updown_payouts_total ps start final u d bps ne hu hd hf hp =
    ground (arith, settle_side_total true u d bps ps hu hf hp, down_side)
  where
    down_side :
        settle_side false (pos d) (pos u) bps ps
        ≡ ok (map (paid_entry false (pos d) (pos (u + d - fee_of bps (u + d)))) ps)
    down_side =
        rw (add_comm u d)
          (settle_side_total false d u bps ps hd (rw add_comm at hf) (rw add_comm at hp))
