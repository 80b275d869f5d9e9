-- ===== src/Contract/Insurance.antt =====
-- The insurance fund's settings and withdrawals (contracts/src/insurance.rs), and the treasury's
-- withdrawal (contracts/src/governance.rs). Their accrual is in Contract/Fees.
pub mod Coverage
use xelma_blockchain.Prelude.{ℕ, some, ltb, if◌then◌else◌}
use xelma_blockchain.Int.{ℤ, pos, leb_ℤ, ltb_ℤ}
use xelma_blockchain.Machine.{checked_add, checked_sub}
use xelma_blockchain.Errors.{
  Result, ok, err, ok_or, ◌>>=◌, ◌>>◌, insurance_invalid_split, invalid_bet_amount,
  insurance_insufficient_fund, insufficient_balance, gov_unauthorized, overflow,
}
use xelma_blockchain.SettlementMath.Common.{payout_add}
use xelma_blockchain.Contract.State.{Env, is_some, Storage, Config}
use xelma_blockchain.Contract.Admin.{_ensure_not_paused, admin_auth}
use xelma_blockchain.Contract.Balances.{balance, _set_balance}
use xelma_blockchain.Contract.Fees.{
  get_insurance_fund_balance, write_insurance_fund, read_treasury, write_treasury,
}

abbrev pub max_insurance_split_bps : ℕ
max_insurance_split_bps = 5_000

abbrev pub max_insurance_coverage_bps : ℕ
max_insurance_coverage_bps = 10_000

abbrev pub with_config : Storage → Config → Storage
with_config s config = record s { config = config }

unfoldable pub set_insurance_split_bps : Env → ℕ → Storage → Result Storage
set_insurance_split_bps env bps s = do
  _admin ← admin_auth env s
  _ensure_not_paused s
  if ltb max_insurance_split_bps bps
      then err insurance_invalid_split
      else ok (with_config s (record s.config { insurance_split_bps = some bps }))

unfoldable pub set_insurance_coverage_bps : Env → ℕ → Storage → Result Storage
set_insurance_coverage_bps env bps s = do
  _admin ← admin_auth env s
  _ensure_not_paused s
  if ltb max_insurance_coverage_bps bps
      then err insurance_invalid_split
      else ok (with_config s (record s.config { insurance_coverage_bps = some bps }))

-- The balance of an account is credited.
unfoldable pub credit : ℕ → ℤ → Storage → Result Storage
credit recipient amount s = do
  new_balance ← payout_add (balance s recipient) amount
  ok (_set_balance s recipient new_balance)

unfoldable pub execute_withdraw_insurance_fund : ℕ → ℤ → Storage → Result Storage
execute_withdraw_insurance_fund recipient amount s =
    if leb_ℤ amount (pos 0)
    then err invalid_bet_amount
    else if ltb_ℤ (get_insurance_fund_balance s) amount
    then err insurance_insufficient_fund
    else (do
      new_fund ← ok_or (checked_sub (get_insurance_fund_balance s) amount) insufficient_balance
      credit recipient amount (write_insurance_fund s new_fund))

unfoldable pub withdraw_from_treasury : ℕ → ℤ → ℤ → Storage → Result Storage
withdraw_from_treasury recipient amount current s =
    if ltb_ℤ current amount then err insufficient_balance else (do
      new_treasury ← ok_or (checked_sub current amount) insufficient_balance
      credit recipient amount (write_treasury s new_treasury))

unfoldable pub _execute_withdraw_fee : ℕ → ℤ → Storage → Result Storage
_execute_withdraw_fee recipient amount s =
    if leb_ℤ amount (pos 0)
    then err invalid_bet_amount
    else (do current ← read_treasury s; withdraw_from_treasury recipient amount current s)

-- The administrator pays into the fund.
unfoldable pub top_up_insurance_fund : Env → ℤ → Storage → Result Storage
top_up_insurance_fund env amount s = do
  admin ← admin_auth env s
  _ensure_not_paused s
  if leb_ℤ amount (pos 0)
      then err invalid_bet_amount
      else if ltb_ℤ (balance s admin) amount
      then err insufficient_balance
      else (do
        new_balance ← ok_or (checked_sub (balance s admin) amount) insufficient_balance
        let s' = _set_balance s admin new_balance
        new_fund ← ok_or (checked_add (get_insurance_fund_balance s') amount) overflow
        ok (write_insurance_fund s' new_fund))

-- The administrator alone withdraws, where no second approver is set.
unfoldable pub withdraw_insurance_fund : Env → ℕ → ℤ → Storage → Result (ℤ × Storage)
withdraw_insurance_fund env recipient amount s = do
  _admin ← admin_auth env s
  if is_some s.governance.gov_approver then err gov_unauthorized else (do
    _ensure_not_paused s
    s' ← execute_withdraw_insurance_fund recipient amount s
    ok (amount, s'))
