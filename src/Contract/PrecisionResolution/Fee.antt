-- ===== src/Contract/PrecisionResolution/Fee.antt =====
-- The protocol fee of a precision round (contracts/src/config.rs): what is shared out and the fee add up
-- to the pot, and the protocol gets the fee.
use xelma_blockchain.Prelude.{◌≡◌, ℕ, ◌∙◌, ap, false, Option, none, some, arith, if◌then◌else◌}
use xelma_blockchain.Int.{ℤ, pos, negsuc, ◌+ℤ◌, ◌-ℤ◌, ◌≤ℤ◌, ltb_ℤ, leb_ℤ, eqb_ℤ, int_laws, pos-mul}
use xelma_blockchain.Machine.{checked_sub, checked_mul, quot}
use xelma_blockchain.Machine.Laws.{checked_sub-eq-some, checked_mul-eq-some}
use xelma_blockchain.Errors.{ok, Ensures, Ensures-ok, Ensures-bind, Ensures-ok_or, Ensures-if}
use xelma_blockchain.SettlementMath.Common.{bps_denominator}
use xelma_blockchain.Contract.State.{FeeModel, fee_on_pot, fee_on_winnings, Storage}
use xelma_blockchain.Contract.Fees.{
  taxable_base, tax_precision, calculate_protocol_fee_precision, _apply_protocol_fee_precision,
  _collect_protocol_fee, _read_protocol_fee_bps, _read_fee_model,
}
use xelma_blockchain.Contract.Fees.Collection.{Collects}
use xelma_blockchain.Contract.Fees.Incidence.{collect_if_positive}
use xelma_blockchain.Contract.CashOut.Payments.{Apart}
use xelma_blockchain.Contract.Settlement.Awards.{collect_if_positive-Apart}

-- The shared part and the fee of a pot.
abbrev Divides : ℤ → ℤ × ℤ → Type 0
Divides pot (distributable, fee) = (distributable +ℤ fee ≡ pot) × (pos 0 ≤ℤ fee)

untaxed : (pot : ℤ) → Divides pot (pot, pos 0)
untaxed pot = (add_zero pot, omega arith)
  where
    add_zero : (a : ℤ) → a +ℤ pos 0 ≡ a
    add_zero a = omega int_laws

taken : (pot fee : ℤ) → (pot -ℤ fee) +ℤ fee ≡ pot
taken pot fee = omega int_laws

-- What is taxed is positive.
abbrev IsTaxable : Option ℤ → Type 0
IsTaxable none = Unit
IsTaxable (some base) = pos 0 ≤ℤ base

taxable_base-IsTaxable :
    (model : FeeModel) (pot stakes : ℤ)
    → leb_ℤ pot (pos 0) ≡ false
    → Ensures IsTaxable (taxable_base model pot stakes)
unfolding taxable_base
taxable_base-IsTaxable fee_on_pot pot stakes h = ground arith
taxable_base-IsTaxable fee_on_winnings pot stakes h =
    Ensures-ok_or IsTaxable (checked_sub pot stakes) _ _ (λ profit e. positive profit)
  where
    positive : (profit : ℤ) → IsTaxable (if leb_ℤ profit (pos 0) then none else some profit)
    positive profit = ground arith

fee_nonneg :
    (base product : ℤ) (bps : ℕ)
    → pos 0 ≤ℤ base
    → checked_mul base (pos bps) ≡ some product
    → pos 0 ≤ℤ quot product bps_denominator
fee_nonneg (pos b) product bps h e =
    rw (checked_mul-eq-some (pos b) (pos bps) e ∙ pos-mul b bps) (omega arith)
fee_nonneg (negsuc b) product bps h e = absurd (omega arith)

tax_precision-Divides :
    (bps : ℕ) (pot : ℤ) (base : Option ℤ)
    → IsTaxable base
    → Ensures (Divides pot) (tax_precision bps pot base)
unfolding tax_precision
tax_precision-Divides bps pot none h = untaxed pot
tax_precision-Divides bps pot (some base) h =
    Ensures-ok_or _ (checked_mul base (pos bps)) _ _ (λ product e.
      let fee = quot product bps_denominator in
      Ensures-if _ (eqb_ℤ fee (pos 0)) _ _ (λ z. untaxed pot)
        (λ nz. Ensures-ok_or _ (checked_sub pot fee) _ _ (λ rest e'. (
          ap (λ x. x +ℤ fee) (checked_sub-eq-some pot fee e') ∙ taken pot fee,
          fee_nonneg base product bps h e,
        ))))

calculate-Divides :
    (bps : Option ℕ) (model : FeeModel) (pot stakes : ℤ)
    → Ensures (Divides pot) (calculate_protocol_fee_precision bps model pot stakes)
unfolding calculate_protocol_fee_precision
calculate-Divides none model pot stakes = untaxed pot
calculate-Divides (some bps) model pot stakes =
    Ensures-if _ (leb_ℤ pot (pos 0)) _ _ (λ h. untaxed pot)
      (λ h. Ensures-bind _ (taxable_base model pot stakes) _ (λ base e.
        tax_precision-Divides bps pot base
          (Ensures-ok _ _ (taxable_base-IsTaxable model pot stakes h) e)))

abbrev pub PotCharged : ℤ → Storage → (ℤ × ℤ) × Storage → Type 0
PotCharged pot s ((distributable, fee), s') =
    (distributable +ℤ fee ≡ pot) × Collects fee s s' × Apart s s'

pub _apply_protocol_fee_precision-PotCharged :
    (pot stakes : ℤ) (s : Storage)
    → Ensures (PotCharged pot s) (_apply_protocol_fee_precision pot stakes s)
unfolding _apply_protocol_fee_precision
_apply_protocol_fee_precision-PotCharged pot stakes s =
    let bps = _read_protocol_fee_bps s in
    let model = _read_fee_model s in
    Ensures-bind _ (calculate_protocol_fee_precision bps model pot stakes) _ (λ (d, fee) e.
      let (divides, nonneg) = Ensures-ok _ _ (calculate-Divides bps model pot stakes) e in
      Ensures-bind _ (if ltb_ℤ (pos 0) fee then _collect_protocol_fee fee s else ok s) _ (λ s' e'. (
        divides,
        Ensures-ok _ _ (collect_if_positive fee s nonneg) e',
        Ensures-ok _ _ (collect_if_positive-Apart fee s) e',
      )))
