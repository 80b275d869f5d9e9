-- ===== src/Contract/PrecisionResolution.antt =====
-- The resolution of a precision round: `_resolve_precision_mode` and `_calculate_precision_payouts` of
-- contracts/src/settlement.rs, built as by default, without the feature `legacy-map-settlement`. The
-- four vectors that the source fills side by side, one entry for each participant, are one list of rows
-- here, and the difference of two prices is `abs_diff`, whose subtraction never goes below 0.
pub mod Payouts
pub mod Settled
pub mod Fee
pub mod Awards
pub mod Nearest
pub mod Placing
pub mod Scanning
pub mod Winners
use xelma_blockchain.Prelude.{
  ℕ, zero, suc, Bool, true, false, ◌&&◌, not, Option, none, some, List, [], ◌∷◌, ◌++◌, map, length,
  replicate, ltb, ◌==◌, if◌then◌else◌,
}
use xelma_blockchain.Int.{ℤ, pos, ltb_ℤ}
use xelma_blockchain.Machine.{checked_sub, quot}
use xelma_blockchain.Errors.{Result, ok, ok_or, ◌>>=◌, payout_overflow}
use xelma_blockchain.SettlementMath.Common.{payout_add}
use xelma_blockchain.SettlementMath.Pot.{is_empty, sum_stakes, weighted_shares}
use xelma_blockchain.SettlementMath.Precision.{
  PrecisionPayoutPolicy, equal, stake_weighted, abs_diff,
}
use xelma_blockchain.Contract.State.{
  unwrap_or, Env, Storage, PrecisionPrediction, PrecisionCommitment, UserRoundOutcome,
  UserOutcomeType, win, loss, refund,
}
use xelma_blockchain.Contract.Balances.{sort_addresses, _accumulate_pending}
use xelma_blockchain.Contract.Betting.{participants_of}
use xelma_blockchain.Contract.Fees.{_apply_protocol_fee_precision}
use xelma_blockchain.Contract.Leaderboard.{_update_stats_win, _update_stats_loss}
use xelma_blockchain.Contract.CashOut.{_persist_user_outcome}

unfoldable pub _read_precision_payout_policy : Storage → PrecisionPayoutPolicy
_read_precision_payout_policy s =
    if unwrap_or s.config.limits.precision_payout_policy 0 == 1 then stake_weighted else equal

-- The equal shares of as many winners as are left, and the total paid.
unfoldable pub equal_payouts : ℤ → ℤ → ℕ → Result (List ℤ × ℤ)
equal_payouts payout_per_winner total_paid zero = ok ([], total_paid)
equal_payouts payout_per_winner total_paid (suc n) = do
  paid ← payout_add total_paid payout_per_winner
  (payouts, final) ← equal_payouts payout_per_winner paid n
  ok (payout_per_winner ∷ payouts, final)

-- The match on the policy: the payouts, and the total paid.
unfoldable pub payouts_by_policy :
    PrecisionPayoutPolicy → List PrecisionPrediction → ℤ → Result (List ℤ × ℤ)
payouts_by_policy equal [] payout_pool = ok ([], pos 0)
payouts_by_policy equal (w ∷ ws) payout_pool =
    equal_payouts (quot payout_pool (suc (length ws))) (pos 0) (suc (length ws))
payouts_by_policy stake_weighted winners payout_pool = do
  let stakes = map (λ w. w.amount) winners
  total_winner_stakes ← sum_stakes (pos 0) stakes
  if ltb_ℤ (pos 0) total_winner_stakes
      then weighted_shares payout_pool total_winner_stakes (pos 0) stakes
      else ok (replicate (length winners) (pos 0), pos 0)

-- The remainder goes to the first winner, whatever its sign.
unfoldable pub add_remainder : ℤ → List ℤ → Result (List ℤ)
add_remainder rest [] = ok []
add_remainder rest (payout ∷ payouts) = do
  payout_0 ← payout_add payout rest
  ok (payout_0 ∷ payouts)

unfoldable pub _calculate_precision_payouts :
    PrecisionPayoutPolicy → List PrecisionPrediction → ℤ → Result (List ℤ)
_calculate_precision_payouts policy winners payout_pool = do
  (payouts, total_paid) ← payouts_by_policy policy winners payout_pool
  rest ← ok_or (checked_sub payout_pool total_paid) payout_overflow
  add_remainder rest payouts

-- A participant's entries of the four vectors.
pub record ParticipantRow : Type 0 where
  pub amount : ℤ
  pub price : ℕ
  pub revealed : Bool
  pub was_winner : Bool

pub record PrecisionScan : Type 0 where
  pub min_diff : Option ℕ
  pub winners : List PrecisionPrediction
  pub total_pot : ℤ
  pub rows : List ParticipantRow

abbrev pub precision_scan_start : PrecisionScan
precision_scan_start = record { min_diff = none; winners = []; total_pot = pos 0; rows = [] }

unfoldable pub staked_amount : Option PrecisionPrediction → Option PrecisionCommitment → ℤ
staked_amount (some pred) commitment = pred.amount
staked_amount none (some commit) = commit.amount
staked_amount none none = pos 0

abbrev pub revealed_row : PrecisionPrediction → Bool → ParticipantRow
revealed_row pred was_winner = record {
  amount = pred.amount;
  price = pred.predicted_price;
  revealed = true;
  was_winner = was_winner;
}

abbrev pub unmark : ParticipantRow → ParticipantRow
unmark row = record row { was_winner = false }

-- The match on the least difference so far.
unfoldable pub place_prediction : ℕ → PrecisionPrediction → Option ℕ → PrecisionScan → PrecisionScan
place_prediction diff pred none scan = record scan {
  min_diff = some diff;
  winners = scan.winners ++ pred ∷ [];
  rows = scan.rows ++ revealed_row pred true ∷ [];
}
place_prediction diff pred (some current_min) scan =
    if ltb diff current_min
    then record scan {
      min_diff = some diff;
      winners = pred ∷ [];
      rows = map unmark scan.rows ++ revealed_row pred true ∷ [];
    }
    else if diff == current_min
    then record scan {
      winners = scan.winners ++ pred ∷ [];
      rows = scan.rows ++ revealed_row pred true ∷ [];
    }
    else record scan { rows = scan.rows ++ revealed_row pred false ∷ [] }

unfoldable pub place_participant :
    ℕ → Option PrecisionPrediction → Option PrecisionCommitment → PrecisionScan → PrecisionScan
place_participant final_price (some pred) commitment scan =
    place_prediction (abs_diff pred.predicted_price final_price) pred scan.min_diff scan
place_participant final_price none commitment scan = record scan {
  rows =
      scan.rows
      ++ record {
        amount = staked_amount none commitment;
        price = 0;
        revealed = false;
        was_winner = false;
      }
        ∷ [];
}

unfoldable pub scan_participant :
    ℕ
    → Option PrecisionPrediction
    → Option PrecisionCommitment
    → PrecisionScan
    → Result PrecisionScan
scan_participant final_price pred commitment scan = do
  total_pot ← payout_add scan.total_pot (staked_amount pred commitment)
  ok (place_participant final_price pred commitment (record scan { total_pot = total_pot }))

-- The first loop.
unfoldable pub scan_participants : ℕ → Storage → ℕ → List ℕ → PrecisionScan → Result PrecisionScan
scan_participants round_id s final_price [] scan = ok scan
scan_participants round_id s final_price (user ∷ users) scan = do
  scan' ←
      scan_participant final_price (s.rounds.precision_position round_id user)
        (s.rounds.precision_commitment round_id user) scan
  scan_participants round_id s final_price users scan'

abbrev pub precision_outcome : ℕ → ℕ → ℤ → ℤ → UserOutcomeType → UserRoundOutcome
precision_outcome user predicted_price stake payout outcome = record {
  user = user;
  round_mode = 1;
  prediction_side = 2;
  predicted_price = predicted_price;
  stake = stake;
  payout = payout;
  outcome = outcome;
}

-- Nothing is paid or counted on the path that skips the payouts.
unfoldable pub credit_winner : Env → Bool → ℕ → ℤ → Storage → Result Storage
credit_winner env true user payout s = ok s
credit_winner env false user payout s = do
  s' ← _accumulate_pending env user payout s
  _update_stats_win user s'

unfoldable pub pay_winner : Env → ℕ → Bool → PrecisionPrediction → ℤ → Storage → Result Storage
pay_winner env round_id skip_payout winner payout s = do
  s' ← credit_winner env skip_payout winner.user payout s
  ok (
      _persist_user_outcome round_id
        (precision_outcome winner.user winner.predicted_price winner.amount payout win) s')

-- The loop over the winners; a payout that is not there is 0.
unfoldable pub pay_winners :
    Env → ℕ → Bool → List PrecisionPrediction → List ℤ → Storage → Result Storage
pay_winners env round_id skip_payout [] payouts s = ok s
pay_winners env round_id skip_payout (winner ∷ winners) [] s = do
  s' ← pay_winner env round_id skip_payout winner (pos 0) s
  pay_winners env round_id skip_payout winners [] s'
pay_winners env round_id skip_payout (winner ∷ winners) (payout ∷ payouts) s = do
  s' ← pay_winner env round_id skip_payout winner payout s
  pay_winners env round_id skip_payout winners payouts s'

unfoldable pub record_loss : ℕ → ℕ → ParticipantRow → Storage → Result Storage
record_loss round_id user row s = if row.was_winner then ok s else (do
  s' ← _update_stats_loss user s
  ok (_persist_user_outcome round_id (precision_outcome user row.price row.amount (pos 0) loss) s'))

-- The loop over the participants who have not won. There is a row for each participant.
unfoldable pub record_losses : ℕ → List ℕ → List ParticipantRow → Storage → Result Storage
record_losses round_id (user ∷ users) (row ∷ rows) s = do
  s' ← record_loss round_id user row s
  record_losses round_id users rows s'
record_losses round_id _ _ s = ok s

unfoldable pub refund_unrevealed : Env → ℕ → ℕ → ℤ → Storage → Result Storage
refund_unrevealed env round_id user stake s =
    if ltb_ℤ (pos 0) stake
    then (do
      s' ← _accumulate_pending env user stake s
      ok (_persist_user_outcome round_id (precision_outcome user 0 stake stake refund) s'))
    else ok s

-- The refunds of a round in which nobody has revealed.
unfoldable pub refund_all_unrevealed :
    Env → ℕ → List ℕ → List ParticipantRow → Storage → Result Storage
refund_all_unrevealed env round_id (user ∷ users) (row ∷ rows) s = do
  s' ← refund_unrevealed env round_id user row.amount s
  refund_all_unrevealed env round_id users rows s'
refund_all_unrevealed env round_id _ _ s = ok s

-- The winners' branch: the fee, and the storage after.
unfoldable pub settle_precision_winners :
    Env → ℕ → Bool → List ℕ → PrecisionScan → Storage → Result (ℤ × Storage)
settle_precision_winners env round_id skip_payout participants scan s = do
  winner_stakes ← sum_stakes (pos 0) (map (λ w. w.amount) scan.winners)
  ((payout_pool, fee), s1) ← _apply_protocol_fee_precision scan.total_pot winner_stakes s
  payouts ← _calculate_precision_payouts (_read_precision_payout_policy s1) scan.winners payout_pool
  s2 ← pay_winners env round_id skip_payout scan.winners payouts s1
  s3 ← record_losses round_id participants scan.rows s2
  ok (fee, s3)

-- What follows the first loop.
unfoldable pub settle_precision :
    Env → ℕ → Bool → List ℕ → PrecisionScan → Storage → Result (ℤ × Storage)
settle_precision env round_id skip_payout participants scan s =
    if not (is_empty scan.winners) && ltb_ℤ (pos 0) scan.total_pot
    then settle_precision_winners env round_id skip_payout participants scan s
    else if ltb_ℤ (pos 0) scan.total_pot
    then (do s' ← refund_all_unrevealed env round_id participants scan.rows s; ok (pos 0, s'))
    else ok (pos 0, s)

-- The fee and the pot, and the storage after.
unfoldable pub _resolve_precision_mode : Env → ℕ → ℕ → Bool → Storage → Result ((ℤ × ℤ) × Storage)
_resolve_precision_mode env round_id final_price skip_payout s =
    let participants = sort_addresses (participants_of s round_id) in
    if is_empty participants then ok ((pos 0, pos 0), s) else (do
      scan ← scan_participants round_id s final_price participants precision_scan_start
      (fee_amount, s') ← settle_precision env round_id skip_payout participants scan s
      ok ((fee_amount, scan.total_pot), s'))
