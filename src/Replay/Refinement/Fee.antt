-- ===== src/Replay/Refinement/Fee.antt =====
-- The fee that the live settlement takes of an up/down round.
use xelma_blockchain.Prelude.{ℕ, ◌+◌, ◌≡◌, ◌≢◌, ap, Option, List, arith, if◌then◌else◌}
use xelma_blockchain.Int.{ℤ, pos, eqb_ℤ, ltb_ℤ}
use xelma_blockchain.Machine.{checked_add}
use xelma_blockchain.Errors.{ok, Ensures, Ensures-ok, Ensures-bind, Ensures-ok_or, Ensures-if}
use xelma_blockchain.SettlementMath.Common.{payout_add}
use xelma_blockchain.SettlementMath.Fees.Conservation.{fee_of, IsRate, compute_updown_fee-fee_split}
use xelma_blockchain.Contract.State.{Env, Storage, BetSide, FeeModel, fee_on_pot}
use xelma_blockchain.Contract.Fees.{
  calculate_protocol_fee_updown, _apply_protocol_fee_updown, _read_protocol_fee_bps,
  _read_fee_model, _collect_protocol_fee,
}
use xelma_blockchain.Contract.Fees.Incidence.{calculate_protocol_fee_updown-compute_updown_fee}
use xelma_blockchain.Contract.Settlement.{settle_participants, _record_winnings_indexed}

-- The fee is the share of both pools.
abbrev IsFee : Option ℕ → ℕ → ℤ → Type 0
IsFee bps pot fee = fee ≡ pos (fee_of bps pot)

calculated-IsFee :
    (bps : Option ℕ) (model : FeeModel) (w l : ℕ)
    → model ≡ fee_on_pot
    → IsRate bps
    → {dw dl fee : ℤ} → calculate_protocol_fee_updown bps model (pos w) (pos l) ≡ ok (dw, dl, fee)
    → IsFee bps (w + l) fee
calculated-IsFee bps model w l m h e =
    ap (λ r. r.2)
      (compute_updown_fee-fee_split w l bps h
        (rw (m, calculate_protocol_fee_updown-compute_updown_fee) at e))

module _ (s : Storage) (w l : ℕ) (model : _read_fee_model s ≡ fee_on_pot)
    (rate : IsRate (_read_protocol_fee_bps s)) where
  applied-IsFee :
      Ensures
        (λ ((dw, dl, fee), s'). IsFee (_read_protocol_fee_bps s) (w + l) fee)
        (_apply_protocol_fee_updown (pos w) (pos l) s)
  unfolding _apply_protocol_fee_updown
  applied-IsFee =
      let bps = _read_protocol_fee_bps s in
      Ensures-bind _ (calculate_protocol_fee_updown bps (_read_fee_model s) (pos w) (pos l)) _
        (λ (dw, dl, fee) e.
          Ensures-bind _ (if ltb_ℤ (pos 0) fee then _collect_protocol_fee fee s else ok s) _
            (λ s' e'. calculated-IsFee bps (_read_fee_model s) w l model rate e))

  pub winnings-IsFee :
      (env : Env) (round_id : ℕ) (users : List ℕ) (side : BetSide)
      → w ≢ 0
      → Ensures
          (λ (fee, s'). IsFee (_read_protocol_fee_bps s) (w + l) fee)
          (_record_winnings_indexed env round_id users side (pos w) (pos l) s)
  unfolding _record_winnings_indexed payout_add
  winnings-IsFee env round_id users side nz =
      Ensures-if _ (eqb_ℤ (pos w) (pos 0)) _ _ (λ z. absurd (nz (ground arith)))
        (λ some_won.
          Ensures-bind _ (_apply_protocol_fee_updown (pos w) (pos l) s) _ (λ ((dw, dl, fee), s1) e.
            Ensures-ok_or _ (checked_add dw dl) _ _ (λ total e1.
              Ensures-bind _ (settle_participants env round_id side (pos w) total users s1) _
                (λ s2 e2. Ensures-ok _ _ applied-IsFee e))))
