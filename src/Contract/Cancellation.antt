-- ===== src/Contract/Cancellation.antt =====
-- The cancellation of the active round, with the refunds and what the insurance fund covers
-- (`cancel_round` of contracts/src/settlement.rs). The pot that it adds up at the end goes nowhere, and is
-- left out.
pub mod Stakes
pub mod Fund
pub mod Cancelling
pub mod Solvency
pub mod Covering
use xelma_blockchain.Prelude.{
  ℕ, Bool, true, false, ◌&&◌, not, Option, none, some, List, [], ◌∷◌, if◌then◌else◌,
}
use xelma_blockchain.Int.{ℤ, pos, ltb_ℤ}
use xelma_blockchain.Machine.{checked_add, checked_mul, checked_div}
use xelma_blockchain.Errors.{Result, ok, ok_or, ◌>>=◌, overflow, round_not_cancellable}
use xelma_blockchain.SettlementMath.Common.{payout_add}
use xelma_blockchain.SettlementMath.Pot.{is_empty}
use xelma_blockchain.Contract.State.{
  Env, put, remove, unwrap_or, Storage, Round, RoundMode, up_down, precision, UserPosition, void,
  RoundArchiveStatus, cancelled,
}
use xelma_blockchain.Contract.Admin.{_require_supported_schema, admin_auth}
use xelma_blockchain.Contract.Balances.{_accumulate_pending}
use xelma_blockchain.Contract.Betting.{with_rounds, participants_of}
use xelma_blockchain.Contract.Insurance.Coverage.{
  is_coverage_eligible, calculate_coverage_amount, deduct_insurance_coverage,
}
use xelma_blockchain.Contract.CashOut.{_persist_user_outcome}
use xelma_blockchain.Contract.Settlement.{refund_outcome}
use xelma_blockchain.Contract.PrecisionResolution.{staked_amount, precision_outcome}
use xelma_blockchain.Contract.Archive.{with_archives, _archive_round, clear_round_storage}

-- The stake that is noted, and the storage after: none is noted without a position.
unfoldable pub cancel_position :
    Env → ℕ → ℕ → Option UserPosition → Storage → Result (Option ℤ × Storage)
cancel_position env round_id user none s = ok (none, s)
cancel_position env round_id user (some position) s = do
  s' ← _accumulate_pending env user position.amount s
  ok (
    some position.amount,
    _persist_user_outcome round_id (record (refund_outcome 0 user position) { outcome = void }) s',
  )

unfoldable pub cancel_stake : Env → ℕ → ℕ → ℤ → Storage → Result (Option ℤ × Storage)
cancel_stake env round_id user refund_amount s = do
  s' ← if ltb_ℤ (pos 0) refund_amount then _accumulate_pending env user refund_amount s else ok s
  ok (
    some refund_amount,
    _persist_user_outcome round_id (precision_outcome user 0 refund_amount refund_amount void) s',
  )

unfoldable pub cancel_participant : Env → ℕ → RoundMode → ℕ → Storage → Result (Option ℤ × Storage)
cancel_participant env round_id up_down user s =
    cancel_position env round_id user (s.rounds.position round_id user) s
cancel_participant env round_id precision user s =
    cancel_stake env round_id user
      (staked_amount (s.rounds.precision_position round_id user)
        (s.rounds.precision_commitment round_id user))
      s

abbrev pub push_stake : Option ℤ → List ℤ → List ℤ
push_stake none stakes = stakes
push_stake (some stake) stakes = stake ∷ stakes

-- A sum that overflows stays as it is.
abbrev pub add_stake : Option ℤ → ℤ → ℤ
add_stake none total_stake = total_stake
add_stake (some stake) total_stake = unwrap_or (checked_add total_stake stake) total_stake

-- The stakes noted, their total from the one before, and the storage after.
unfoldable pub cancel_participants :
    Env → ℕ → RoundMode → List ℕ → ℤ → Storage → Result ((List ℤ × ℤ) × Storage)
cancel_participants env round_id mode [] total_stake s = ok (([], total_stake), s)
cancel_participants env round_id mode (user ∷ users) total_stake s = do
  (stake, s1) ← cancel_participant env round_id mode user s
  ((stakes, total), s2) ←
      cancel_participants env round_id mode users (add_stake stake total_stake) s1
  ok ((push_stake stake stakes, total), s2)

unfoldable pub sum_coverage : ℤ → List ℤ → Storage → Result ℤ
sum_coverage total_coverage [] s = ok total_coverage
sum_coverage total_coverage (stake ∷ stakes) s = do
  cov ← calculate_coverage_amount s stake
  total ← payout_add total_coverage cov
  sum_coverage total stakes s

-- A stake's proportion of what is distributed.
unfoldable pub coverage_share : ℤ → ℤ → ℤ → Result ℤ
coverage_share distributed total_stake stake =
    if ltb_ℤ (pos 0) stake
    then (do
      product ← ok_or (checked_mul distributed stake) overflow
      ok_or (checked_div product total_stake) overflow)
    else ok (pos 0)

unfoldable pub cover : Env → ℤ → ℤ → ℕ → ℤ → Storage → Result Storage
cover env distributed total_stake user stake s = do
  coverage ← coverage_share distributed total_stake stake
  if ltb_ℤ (pos 0) coverage then _accumulate_pending env user coverage s else ok s

-- The participants and the stakes are read at the same indices; a stake that is not there is 0.
unfoldable pub distribute_coverage : Env → ℤ → ℤ → List ℕ → List ℤ → Storage → Result Storage
distribute_coverage env distributed total_stake [] stakes s = ok s
distribute_coverage env distributed total_stake (user ∷ users) [] s = do
  s' ← cover env distributed total_stake user (pos 0) s
  distribute_coverage env distributed total_stake users [] s'
distribute_coverage env distributed total_stake (user ∷ users) (stake ∷ stakes) s = do
  s' ← cover env distributed total_stake user stake s
  distribute_coverage env distributed total_stake users stakes s'

unfoldable pub cover_participants : Env → ℤ → List ℕ → List ℤ → ℤ → Storage → Result Storage
cover_participants env total_coverage participants stakes total_stake s =
    if ltb_ℤ (pos 0) total_coverage
    then (do
      (distributed, s') ← deduct_insurance_coverage total_coverage s
      if ltb_ℤ (pos 0) distributed && ltb_ℤ (pos 0) total_stake
          then distribute_coverage env distributed total_stake participants stakes s'
          else ok s')
    else ok s

-- The coverage of a round that is eligible.
unfoldable pub cover_round : Env → Bool → List ℕ → List ℤ → ℤ → Storage → Result Storage
cover_round env eligible participants stakes total_stake s =
    if eligible && not (is_empty stakes)
    then (do
      total_coverage ← sum_coverage (pos 0) stakes s
      cover_participants env total_coverage participants stakes total_stake s)
    else ok s

abbrev pub mark_cancelled : ℕ → Storage → Storage
mark_cancelled round_id s =
    with_archives s
      (record s.archives { cancelled_round = put s.archives.cancelled_round round_id true })

-- What follows the payments.
abbrev pub close_cancelled : Env → Round → List ℕ → Storage → Storage
close_cancelled env round participants s =
    let s1 = clear_round_storage round.round_id participants s in
    let s2 = _archive_round env round cancelled 0 participants s1 in
    let s3 = mark_cancelled round.round_id s2 in
    with_rounds s3 (record s3.rounds {
      participants = remove s3.rounds.participants round.round_id;
      active_round = none;
    })

-- What is done with the active round.
unfoldable pub cancel_active : Env → ℕ → Round → Storage → Result Storage
cancel_active env reason round s = do
  let participants = participants_of s round.round_id
  let eligible = is_coverage_eligible s reason
  ((stakes, total_stake), s1) ←
      cancel_participants env round.round_id round.mode participants (pos 0) s
  s2 ← cover_round env eligible participants stakes total_stake s1
  ok (close_cancelled env round participants s2)

unfoldable pub cancel_round : Env → ℕ → Storage → Result Storage
cancel_round env reason s = do
  _ ← _require_supported_schema s
  _ ← admin_auth env s
  round ← ok_or s.rounds.active_round round_not_cancellable
  cancel_active env reason round s

unfoldable pub is_round_cancelled : ℕ → Storage → Bool
is_round_cancelled round_id s = unwrap_or (s.archives.cancelled_round round_id) false
