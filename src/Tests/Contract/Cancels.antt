-- ===== src/Tests/Contract/Cancels.antt =====
-- The cancellation of contracts/src/settlement.rs at a small storage.
use xelma_blockchain.Prelude.{◌≡◌, refl, some, [], ◌∷◌, arith}
use xelma_blockchain.Int.{pos}
use xelma_blockchain.Errors.{ok, value_or}
use xelma_blockchain.Contract.State.{Storage, up_down}
use xelma_blockchain.Contract.Fees.{write_insurance_fund}
use xelma_blockchain.Contract.Insurance.{with_config}
use xelma_blockchain.Contract.Cancellation.{cancel_round}
use xelma_blockchain.Contract.Cancellation.Cancelling.{AreStakes, Cancelled, cancel_round-Cancelled}
use xelma_blockchain.Tests.Contract.{everyone_at}
use xelma_blockchain.Tests.Contract.Stakes.{round_with, two_bets}

-- The stakes are 40 and 30; a tenth of each is to be covered by a fund of 5.
abbrev insured : Storage
insured =
    write_insurance_fund
      (with_config two_bets (record two_bets.config {
        insurance_coverage_bps = some 1_000;
        insurance_eligible_events = some (0 ∷ 2 ∷ []);
      }))
      (pos 5)

abbrev after_cancel : Storage
after_cancel = value_or insured (cancel_round (everyone_at 12) 1 insured)

one_cancel : cancel_round (everyone_at 12) 1 insured ≡ ok after_cancel
unfolding value_or cancel_round xelma_blockchain.Contract.Admin._require_supported_schema
    write_insurance_fund xelma_blockchain.Contract.Balances._set_balance
    xelma_blockchain.Contract.Admin.admin_auth xelma_blockchain.Contract.State.require_auth
    xelma_blockchain.Contract.Cancellation.cancel_active
    xelma_blockchain.Contract.Cancellation.cancel_participants xelma_blockchain.Contract.State.put
    xelma_blockchain.Contract.Cancellation.cancel_participant
    xelma_blockchain.Contract.Cancellation.cancel_position
    xelma_blockchain.Contract.State.put_in_round
    xelma_blockchain.Contract.Balances._accumulate_pending
    xelma_blockchain.SettlementMath.Common.payout_add xelma_blockchain.Machine.checked_add
    xelma_blockchain.Int.◌+ℤ◌ xelma_blockchain.Contract.CashOut._persist_user_outcome
    xelma_blockchain.Contract.Cancellation.cover_round
    xelma_blockchain.Contract.Insurance.Coverage.is_coverage_eligible
    xelma_blockchain.Contract.Insurance.Coverage._is_eligible_event
    xelma_blockchain.SettlementMath.Precision.contains
    xelma_blockchain.Contract.Insurance.Coverage.get_insurance_eligible_events
    xelma_blockchain.Contract.Insurance.Coverage.get_insurance_coverage_bps
    xelma_blockchain.Contract.Cancellation.sum_coverage
    xelma_blockchain.Contract.Insurance.Coverage.calculate_coverage_amount
    xelma_blockchain.Machine.checked_mul xelma_blockchain.Int.◌*ℤ◌
    xelma_blockchain.Machine.checked_div xelma_blockchain.Contract.Cancellation.cover_participants
    xelma_blockchain.Contract.Insurance.Coverage.deduct_insurance_coverage
    xelma_blockchain.Contract.Fees.get_insurance_fund_balance xelma_blockchain.Machine.checked_sub
    xelma_blockchain.Int.◌-ℤ◌ xelma_blockchain.Contract.Cancellation.distribute_coverage
    xelma_blockchain.Contract.Cancellation.cover
    xelma_blockchain.Contract.Cancellation.coverage_share
one_cancel = refl

-- The fund is empty, and users 1 and 2 have 2 each of it: the unit that is left goes to nobody.
cancel_pays : after_cancel.funds.pending_winnings 1 ≡ some (pos 47)
unfolding value_or cancel_round xelma_blockchain.Contract.Admin._require_supported_schema
    write_insurance_fund xelma_blockchain.Contract.Balances._set_balance
    xelma_blockchain.Contract.Admin.admin_auth xelma_blockchain.Contract.State.require_auth
    xelma_blockchain.Contract.Cancellation.cancel_active
    xelma_blockchain.Contract.Cancellation.cancel_participants xelma_blockchain.Contract.State.put
    xelma_blockchain.Contract.Cancellation.cancel_participant
    xelma_blockchain.Contract.Cancellation.cancel_position
    xelma_blockchain.Contract.State.put_in_round
    xelma_blockchain.Contract.Balances._accumulate_pending
    xelma_blockchain.SettlementMath.Common.payout_add xelma_blockchain.Machine.checked_add
    xelma_blockchain.Int.◌+ℤ◌ xelma_blockchain.Contract.CashOut._persist_user_outcome
    xelma_blockchain.Contract.Cancellation.cover_round
    xelma_blockchain.Contract.Insurance.Coverage.is_coverage_eligible
    xelma_blockchain.Contract.Insurance.Coverage._is_eligible_event
    xelma_blockchain.SettlementMath.Precision.contains
    xelma_blockchain.Contract.Insurance.Coverage.get_insurance_eligible_events
    xelma_blockchain.Contract.Insurance.Coverage.get_insurance_coverage_bps
    xelma_blockchain.Contract.Cancellation.sum_coverage
    xelma_blockchain.Contract.Insurance.Coverage.calculate_coverage_amount
    xelma_blockchain.Machine.checked_mul xelma_blockchain.Int.◌*ℤ◌
    xelma_blockchain.Machine.checked_div xelma_blockchain.Contract.Cancellation.cover_participants
    xelma_blockchain.Contract.Insurance.Coverage.deduct_insurance_coverage
    xelma_blockchain.Contract.Fees.get_insurance_fund_balance xelma_blockchain.Machine.checked_sub
    xelma_blockchain.Int.◌-ℤ◌ xelma_blockchain.Contract.Cancellation.distribute_coverage
    xelma_blockchain.Contract.Cancellation.cover
    xelma_blockchain.Contract.Cancellation.coverage_share
    xelma_blockchain.Contract.Archive._archive_round
    xelma_blockchain.Contract.Archive.clear_round_storage
cancel_pays = refl

insured_stakes : AreStakes (round_with up_down 40 30) insured
unfolding write_insurance_fund xelma_blockchain.Contract.State.put
    xelma_blockchain.Contract.Balances._set_balance xelma_blockchain.Contract.State.put_in_round
insured_stakes = ((omega arith, (omega arith, tt)), omega arith)

cancel_round-Cancelled_example : Cancelled (round_with up_down 40 30) insured after_cancel
unfolding write_insurance_fund
cancel_round-Cancelled_example =
    cancel_round-Cancelled (everyone_at 12) 1 (round_with up_down 40 30) insured refl insured_stakes
      one_cancel
