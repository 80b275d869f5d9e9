-- ===== src/SettlementMath/UpDown/Entries.antt =====
-- What `pay_positions` returns, entry by entry.
use xelma_blockchain.Prelude.{
  ◌≡◌, refl, Bool, false, List, [], ◌∷◌, map, arith, bool_eq, if◌then◌else◌,
}
use xelma_blockchain.Int.{ℤ, pos, ◌*ℤ◌, eqb_ℤ}
use xelma_blockchain.Machine.{quot_ℤ}
use xelma_blockchain.Machine.Laws.{checked_mul-eq-some, checked_div-eq-some}
use xelma_blockchain.Errors.{ok, Ensures, Ensures-ok}
use xelma_blockchain.SettlementMath.UpDown.{
  UpDownPosition, UpDownPayoutEntry, compute_updown_winner_payout, settled_entry, pay_positions,
}

-- A winner's share, by the formula of the source's comment.
abbrev pub share : ℤ → ℤ → ℤ → ℤ
share winning_pool total stake = quot_ℤ (stake *ℤ total) winning_pool

abbrev pub paid_entry : Bool → ℤ → ℤ → UpDownPosition → UpDownPayoutEntry
paid_entry side w t p =
    settled_entry p (bool_eq p.side_up side)
      (if bool_eq p.side_up side then share w t p.amount else pos 0)

pub compute_updown_winner_payout-share :
    (stake w t : ℤ)
    → (eqb_ℤ w (pos 0) ≡ false)
    → Ensures (λ payout. payout ≡ share w t stake) (compute_updown_winner_payout stake w t)
unfolding compute_updown_winner_payout
compute_updown_winner_payout-share stake w t nz =
    grind (arith, checked_mul-eq-some, checked_div-eq-some)

pub pay_positions-Ensures :
    (side : Bool) (w t : ℤ) (ps : List UpDownPosition)
    → (eqb_ℤ w (pos 0) ≡ false)
    → Ensures (λ es. es ≡ map (paid_entry side w t) ps) (pay_positions side w t ps)
unfolding pay_positions
pay_positions-Ensures side w t [] nz = refl
pay_positions-Ensures side w t (p ∷ ps) nz = ground (
  arith,
  compute_updown_winner_payout-share p.amount w t nz,
  pay_positions-Ensures side w t ps nz,
)

pub pay_positions-paid :
    (side : Bool) (w t : ℤ) (ps : List UpDownPosition) {es : List UpDownPayoutEntry}
    → (eqb_ℤ w (pos 0) ≡ false)
    → pay_positions side w t ps ≡ ok es
    → es ≡ map (paid_entry side w t) ps
pay_positions-paid side w t ps nz h = Ensures-ok _ _ (pay_positions-Ensures side w t ps nz) h
