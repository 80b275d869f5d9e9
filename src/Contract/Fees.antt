-- ===== src/Contract/Fees.antt =====
-- The protocol fee of contracts/src/config.rs and the insurance fund's part of it
-- (contracts/src/insurance.rs). The round's id, the rate and the fee model that `_collect_protocol_fee`
-- takes go into its event alone, and are left out there.
pub mod Collection
pub mod Incidence
use xelma_blockchain.Prelude.{
  ℕ, ◌+◌, Bool, true, false, ◌||◌, Option, none, some, ◌==◌, if◌then◌else◌,
}
use xelma_blockchain.Int.{ℤ, pos, leb_ℤ, ltb_ℤ, eqb_ℤ, min_ℤ}
use xelma_blockchain.Machine.{checked_add, checked_sub, checked_mul, checked_div, quot}
use xelma_blockchain.Errors.{Result, ok, err, panic, ok_or, ◌>>=◌, ◌>>◌, overflow}
use xelma_blockchain.SettlementMath.Common.{payout_add, bps_denominator}
use xelma_blockchain.Contract.State.{
  FeeModel, fee_on_pot, fee_on_winnings, TreasuryValue, fees, address, unwrap_or, Storage, Funds,
}
use xelma_blockchain.Contract.Balances.{with_funds}

-- `persistent().get::<_, i128>(&ProtocolFeeTreasury).unwrap_or(0)`: a value of another type is a trap.
unfoldable pub read_treasury : Storage → Result ℤ
read_treasury s = elim s.funds.protocol_fee_treasury [
  | none ↦ ok (pos 0)
  | some (fees amount) ↦ ok amount
  | some (address a) ↦ panic
]

unfoldable pub write_treasury : Storage → ℤ → Storage
write_treasury s amount =
    with_funds s (record s.funds { protocol_fee_treasury = some (fees amount) })

unfoldable pub get_insurance_fund_balance : Storage → ℤ
get_insurance_fund_balance s = unwrap_or s.funds.insurance_fund (pos 0)

unfoldable pub write_insurance_fund : Storage → ℤ → Storage
write_insurance_fund s amount = with_funds s (record s.funds { insurance_fund = some amount })

unfoldable pub get_insurance_split_bps : Storage → ℕ
get_insurance_split_bps s = unwrap_or s.config.insurance_split_bps 0

-- The credit of the fund with its part of a fee.
unfoldable pub credit_insurance_fund : ℤ → ℤ → Storage → Result (ℤ × Storage)
credit_insurance_fund insurance_amount fee_amount s =
    if leb_ℤ insurance_amount (pos 0) then ok (pos 0, s) else (do
      let capped_amount = min_ℤ insurance_amount fee_amount
      new_balance ← ok_or (checked_add (get_insurance_fund_balance s) capped_amount) overflow
      ok (capped_amount, write_insurance_fund s new_balance))

-- The amount that goes to the fund, and the storage after.
unfoldable pub collect_insurance_fee : ℤ → Storage → Result (ℤ × Storage)
collect_insurance_fee fee_amount s =
    let split_bps = get_insurance_split_bps s in
    if split_bps == 0 || leb_ℤ fee_amount (pos 0) then ok (pos 0, s) else (do
      product ← ok_or (checked_mul fee_amount (pos split_bps)) overflow
      insurance_amount ← ok_or (checked_div product (pos bps_denominator)) overflow
      credit_insurance_fund insurance_amount fee_amount s)

unfoldable pub _collect_protocol_fee : ℤ → Storage → Result Storage
_collect_protocol_fee fee_amount s = if leb_ℤ fee_amount (pos 0) then ok s else (do
  (insurance_amount, s') ← collect_insurance_fee fee_amount s
  ops_amount ← ok_or (checked_sub fee_amount insurance_amount) overflow
  current ← read_treasury s'
  new_treasury ← ok_or (checked_add current ops_amount) overflow
  ok (write_treasury s' new_treasury))

unfoldable pub _read_fee_model : Storage → FeeModel
_read_fee_model s = unwrap_or s.config.fee_model fee_on_pot

unfoldable pub _read_protocol_fee_bps : Storage → Option ℕ
_read_protocol_fee_bps s = s.config.protocol_fee_bps

-- The fee of a configured rate.
unfoldable pub updown_fee_amount : ℕ → FeeModel → ℤ → ℤ → Result ℤ
updown_fee_amount bps_value fee_on_pot winning_pool losing_pool = do
  total_pot ← payout_add winning_pool losing_pool
  product ← ok_or (checked_mul total_pot (pos bps_value)) overflow
  ok (quot product bps_denominator)
updown_fee_amount bps_value fee_on_winnings winning_pool losing_pool = do
  product ← ok_or (checked_mul losing_pool (pos bps_value)) overflow
  ok (quot product bps_denominator)

-- The last match of `calculate_protocol_fee_updown`.
unfoldable pub deduct_fee : FeeModel → ℤ → ℤ → ℤ → Result (ℤ × ℤ × ℤ)
deduct_fee fee_on_pot winning_pool losing_pool fee_amount = do
  let fee_from_losing = min_ℤ fee_amount losing_pool
  fee_from_winning ← ok_or (checked_sub fee_amount fee_from_losing) overflow
  dist_winning ← ok_or (checked_sub winning_pool fee_from_winning) overflow
  dist_losing ← ok_or (checked_sub losing_pool fee_from_losing) overflow
  ok (dist_winning, dist_losing, fee_amount)
deduct_fee fee_on_winnings winning_pool losing_pool fee_amount = do
  dist_losing ← ok_or (checked_sub losing_pool fee_amount) overflow
  ok (winning_pool, dist_losing, fee_amount)

unfoldable pub calculate_protocol_fee_updown : Option ℕ → FeeModel → ℤ → ℤ → Result (ℤ × ℤ × ℤ)
calculate_protocol_fee_updown none model winning_pool losing_pool =
    ok (winning_pool, losing_pool, pos 0)
calculate_protocol_fee_updown (some bps_value) model winning_pool losing_pool = do
  fee_amount ← updown_fee_amount bps_value model winning_pool losing_pool
  if eqb_ℤ fee_amount (pos 0)
      then ok (winning_pool, losing_pool, pos 0)
      else deduct_fee model winning_pool losing_pool fee_amount

unfoldable pub _apply_protocol_fee_updown : ℤ → ℤ → Storage → Result ((ℤ × ℤ × ℤ) × Storage)
_apply_protocol_fee_updown winning_pool losing_pool s = do
  (dist_winning, dist_losing, fee_amount) ←
      calculate_protocol_fee_updown (_read_protocol_fee_bps s) (_read_fee_model s) winning_pool
        losing_pool
  s' ← if ltb_ℤ (pos 0) fee_amount then _collect_protocol_fee fee_amount s else ok s
  ok ((dist_winning, dist_losing, fee_amount), s')

-- What a precision round is taxed on; `none` where there is no profit to tax.
unfoldable pub taxable_base : FeeModel → ℤ → ℤ → Result (Option ℤ)
taxable_base fee_on_pot total_pot winner_stakes = ok (some total_pot)
taxable_base fee_on_winnings total_pot winner_stakes = do
  profit ← ok_or (checked_sub total_pot winner_stakes) overflow
  ok (if leb_ℤ profit (pos 0) then none else some profit)

unfoldable pub tax_precision : ℕ → ℤ → Option ℤ → Result (ℤ × ℤ)
tax_precision bps_value total_pot none = ok (total_pot, pos 0)
tax_precision bps_value total_pot (some base) = do
  product ← ok_or (checked_mul base (pos bps_value)) overflow
  let fee_amount = quot product bps_denominator
  if eqb_ℤ fee_amount (pos 0)
      then ok (total_pot, pos 0)
      else (do ok ((← ok_or (checked_sub total_pot fee_amount) overflow), fee_amount))

unfoldable pub calculate_protocol_fee_precision : Option ℕ → FeeModel → ℤ → ℤ → Result (ℤ × ℤ)
calculate_protocol_fee_precision none model total_pot winner_stakes = ok (total_pot, pos 0)
calculate_protocol_fee_precision (some bps_value) model total_pot winner_stakes =
    if leb_ℤ total_pot (pos 0) then ok (total_pot, pos 0) else (do
      base ← taxable_base model total_pot winner_stakes
      tax_precision bps_value total_pot base)

unfoldable pub _apply_protocol_fee_precision : ℤ → ℤ → Storage → Result ((ℤ × ℤ) × Storage)
_apply_protocol_fee_precision total_pot winner_stakes s = do
  (distributable, fee_amount) ←
      calculate_protocol_fee_precision (_read_protocol_fee_bps s) (_read_fee_model s) total_pot
        winner_stakes
  s' ← if ltb_ℤ (pos 0) fee_amount then _collect_protocol_fee fee_amount s else ok s
  ok ((distributable, fee_amount), s')
