-- ===== src/Contract/Fees/Incidence.antt =====
-- Who bears the protocol fee of contracts/src/config.rs, under either fee model.
use xelma_blockchain.Prelude.{ℕ, ◌≡◌, refl, sym, if◌then◌else◌, false, Option, none, some, arith}
use xelma_blockchain.Int.{ℤ, pos, ◌+ℤ◌, ◌-ℤ◌, ◌≤ℤ◌, int_laws, ltb_ℤ, pos-mul, pos-add}
use xelma_blockchain.Machine.Laws.{checked_add-eq-some, checked_sub-eq-some, checked_mul-eq-some}
use xelma_blockchain.Errors.{ok, Ensures, Ensures-ok, Ensures-bind, Ensures-if}
use xelma_blockchain.SettlementMath.Common.{payout_add}
use xelma_blockchain.SettlementMath.Fees.{compute_updown_fee, deduct_updown_fee}
use xelma_blockchain.SettlementMath.Fees.Conservation.{compute_updown_fee-conserves}
use xelma_blockchain.Contract.State.{FeeModel, fee_on_pot, fee_on_winnings, Storage}
use xelma_blockchain.Contract.Fees.{
  calculate_protocol_fee_updown, updown_fee_amount, deduct_fee, _apply_protocol_fee_updown,
  _collect_protocol_fee, _read_protocol_fee_bps, _read_fee_model,
}
use xelma_blockchain.Contract.Fees.Collection.{
  protocol_funds, Collects, _collect_protocol_fee-Collects,
}

-- Under the fee-on-pot model the contract's calculation is the settlement mathematics' one, which the
-- replay uses: the same pools and fee, and the same error where there is one.
pub calculate_protocol_fee_updown-compute_updown_fee :
    (bps : Option ℕ) (winning_pool losing_pool : ℤ)
    → calculate_protocol_fee_updown bps fee_on_pot winning_pool losing_pool
      ≡ compute_updown_fee winning_pool losing_pool bps
unfolding calculate_protocol_fee_updown compute_updown_fee updown_fee_amount deduct_fee
    deduct_updown_fee
calculate_protocol_fee_updown-compute_updown_fee none w l = refl
calculate_protocol_fee_updown-compute_updown_fee (some bps) w l = ground arith

abbrev Conserves : ℤ → ℤ → ℤ × ℤ × ℤ → Type 0
Conserves w l (dw, dl, fee) = dw +ℤ dl +ℤ fee ≡ w +ℤ l

add_zero : (w l : ℤ) → w +ℤ l +ℤ pos 0 ≡ w +ℤ l
add_zero w l = omega int_laws

sub_back : (w l fee : ℤ) → w +ℤ (l -ℤ fee) +ℤ fee ≡ w +ℤ l
sub_back w l fee = omega int_laws

winnings-Conserves :
    (bps : Option ℕ) (w l : ℤ)
    → Ensures (Conserves w l) (calculate_protocol_fee_updown bps fee_on_winnings w l)
unfolding calculate_protocol_fee_updown updown_fee_amount deduct_fee
winnings-Conserves none w l = add_zero w l
winnings-Conserves (some bps) w l = grind (arith, checked_sub-eq-some, add_zero w l, sub_back w l)

-- Under either model, whatever the signs and sizes of the pools, a calculation that returns loses and
-- makes no stake: the post-fee pools and the fee add up to the pools.
pub calculate_protocol_fee_updown-conserves :
    (bps : Option ℕ) (model : FeeModel) (w l : ℤ) {dw dl fee : ℤ}
    → calculate_protocol_fee_updown bps model w l ≡ ok (dw, dl, fee)
    → dw +ℤ dl +ℤ fee ≡ w +ℤ l
calculate_protocol_fee_updown-conserves bps fee_on_pot w l h =
    compute_updown_fee-conserves w l bps (rw calculate_protocol_fee_updown-compute_updown_fee at h)
calculate_protocol_fee_updown-conserves bps fee_on_winnings w l h =
    Ensures-ok (Conserves w l) _ (winnings-Conserves bps w l) h

-- Of pools that are not negative, no fee is negative.
pub fee-nonneg :
    (bps : Option ℕ) (model : FeeModel) (w l : ℕ)
    → Ensures
        (λ (_dw, _dl, fee). pos 0 ≤ℤ fee)
        (calculate_protocol_fee_updown bps model (pos w) (pos l))
unfolding calculate_protocol_fee_updown updown_fee_amount deduct_fee payout_add
fee-nonneg none model w l = omega arith
fee-nonneg (some bps) fee_on_pot w l =
    grind (arith, checked_mul-eq-some, checked_add-eq-some, pos-mul, pos-add)
fee-nonneg (some bps) fee_on_winnings w l = grind (arith, checked_mul-eq-some, pos-mul)

-- The pools, the treasury and the insurance fund before, and what is left of them after.
abbrev Keeps : ℤ → ℤ → Storage → (ℤ × ℤ × ℤ) × Storage → Type 0
Keeps w l s ((dw, dl, _fee), s') = dw +ℤ dl +ℤ protocol_funds s' ≡ w +ℤ l +ℤ protocol_funds s

collected-Keeps :
    (w l dw dl fee : ℤ) (s s' : Storage)
    → dw +ℤ dl +ℤ fee ≡ w +ℤ l
    → Collects fee s s'
    → Keeps w l s ((dw, dl, fee), s')
collected-Keeps w l dw dl fee s s' h c = rw (c, sym h) (shuffle dw dl fee (protocol_funds s))
  where
    shuffle : (a b c p : ℤ) → a +ℤ b +ℤ (p +ℤ c) ≡ a +ℤ b +ℤ c +ℤ p
    shuffle a b c p = omega int_laws

pub collect_if_positive :
    (fee : ℤ) (s : Storage)
    → pos 0 ≤ℤ fee
    → Ensures (Collects fee s) (if ltb_ℤ (pos 0) fee then _collect_protocol_fee fee s else ok s)
collect_if_positive fee s h =
    Ensures-if (Collects fee s) (ltb_ℤ (pos 0) fee) _ _
      (λ e. _collect_protocol_fee-Collects fee s h) (λ e. nothing fee h e)
  where
    nothing : (fee : ℤ) → pos 0 ≤ℤ fee → ltb_ℤ (pos 0) fee ≡ false → Collects fee s s
    nothing fee h e = grind (int_laws)

apply-Ensures :
    (w l : ℕ) (s : Storage)
    → Ensures (Keeps (pos w) (pos l) s) (_apply_protocol_fee_updown (pos w) (pos l) s)
unfolding _apply_protocol_fee_updown
apply-Ensures w l s =
    let bps = _read_protocol_fee_bps s in
    let model = _read_fee_model s in
    Ensures-bind _ (calculate_protocol_fee_updown bps model (pos w) (pos l)) _ (λ (dw, dl, fee) e.
      Ensures-bind _ (if ltb_ℤ (pos 0) fee then _collect_protocol_fee fee s else ok s) _ (λ s' e'.
        collected-Keeps (pos w) (pos l) dw dl fee s s'
          (calculate_protocol_fee_updown-conserves bps model (pos w) (pos l) e)
          (Ensures-ok _ _ (collect_if_positive fee s (Ensures-ok _ _ (fee-nonneg bps model w l) e))
            e')))

-- Taking the fee of two pools that are not negative moves money and makes none: the post-fee pools, the
-- treasury and the insurance fund together hold what the pools, the treasury and the fund held before.
pub _apply_protocol_fee_updown-conserves :
    (w l : ℕ) (s : Storage) {dw dl fee : ℤ} {s' : Storage}
    → _apply_protocol_fee_updown (pos w) (pos l) s ≡ ok ((dw, dl, fee), s')
    → dw +ℤ dl +ℤ protocol_funds s' ≡ pos w +ℤ pos l +ℤ protocol_funds s
_apply_protocol_fee_updown-conserves w l s h =
    Ensures-ok (Keeps (pos w) (pos l) s) _ (apply-Ensures w l s) h
