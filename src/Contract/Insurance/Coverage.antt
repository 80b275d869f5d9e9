-- ===== src/Contract/Insurance/Coverage.antt =====
-- What the insurance fund covers of a cancelled round (contracts/src/insurance.rs).
use xelma_blockchain.Prelude.{
  ℕ, Bool, false, ◌&&◌, ◌||◌, Option, none, some, List, [], ltb, ◌==◌, if◌then◌else◌,
}
use xelma_blockchain.Int.{ℤ, pos, leb_ℤ, min_ℤ}
use xelma_blockchain.Machine.{checked_sub, checked_mul, checked_div}
use xelma_blockchain.Errors.{Result, ok, ok_or, ◌>>=◌, ◌>>◌, overflow}
use xelma_blockchain.SettlementMath.Common.{bps_denominator}
use xelma_blockchain.SettlementMath.Precision.{contains}
use xelma_blockchain.Contract.State.{Env, unwrap_or, Storage}
use xelma_blockchain.Contract.Admin.{_ensure_not_paused, admin_auth}
use xelma_blockchain.Contract.Fees.{get_insurance_fund_balance, write_insurance_fund}
use xelma_blockchain.Contract.Insurance.{with_config}

unfoldable pub set_insurance_eligible_events : Env → List ℕ → Storage → Result Storage
set_insurance_eligible_events env events s = do
  _admin ← admin_auth env s
  _ensure_not_paused s
  ok (with_config s (record s.config { insurance_eligible_events = some events }))

unfoldable pub get_insurance_eligible_events : Storage → List ℕ
get_insurance_eligible_events s = unwrap_or s.config.insurance_eligible_events []

unfoldable pub get_insurance_coverage_bps : Storage → ℕ
get_insurance_coverage_bps s = unwrap_or s.config.insurance_coverage_bps 0

-- The event of a reason to cancel: an outage or a deviation of the oracle, or a fallback refund.
abbrev pub event_of_reason : ℕ → Option ℕ
event_of_reason cancel_reason =
    if cancel_reason == 1
    then some 0
    else if cancel_reason == 2
    then some 1
    else if cancel_reason == 3
    then some 2
    else none

abbrev pub is_listed : List ℕ → Option ℕ → Bool
is_listed whitelist none = false
is_listed whitelist (some event_type) = contains whitelist event_type

unfoldable pub _is_eligible_event : Storage → ℕ → Bool
_is_eligible_event s cancel_reason =
    is_listed (get_insurance_eligible_events s) (event_of_reason cancel_reason)

unfoldable pub is_coverage_eligible : Storage → ℕ → Bool
is_coverage_eligible s cancel_reason =
    _is_eligible_event s cancel_reason && ltb 0 (get_insurance_coverage_bps s)

unfoldable pub calculate_coverage_amount : Storage → ℤ → Result ℤ
calculate_coverage_amount s stake =
    let coverage_bps = get_insurance_coverage_bps s in
    if coverage_bps == 0 || leb_ℤ stake (pos 0) then ok (pos 0) else (do
      product ← ok_or (checked_mul stake (pos coverage_bps)) overflow
      ok_or (checked_div product (pos bps_denominator)) overflow)

-- What is taken out of the fund, at most what it holds.
unfoldable pub deduct_insurance_coverage : ℤ → Storage → Result (ℤ × Storage)
deduct_insurance_coverage requested s =
    let current_fund = get_insurance_fund_balance s in
    if leb_ℤ requested (pos 0) || leb_ℤ current_fund (pos 0) then ok (pos 0, s) else (do
      let distributed = min_ℤ requested current_fund
      new_balance ← ok_or (checked_sub current_fund distributed) overflow
      ok (distributed, write_insurance_fund s new_balance))
