-- ===== src/Contract/Betting.antt =====
-- The stakes of contracts/src/betting.rs: rounds created, bets, predictions, commitments and their
-- reveals, and early cash-outs. SHA-256 over the encoded price and salt is code outside the
-- repository: a parameter. A salt is its list of bytes; a hash is a number, 0 for the zero bytes.
pub mod Placement
pub mod Pools
use xelma_blockchain.Prelude.{
  ℕ, zero, suc, ◌+◌, ◌-◌, Bool, true, false, not, ◌&&◌, ◌||◌, Option, none, some, List, [], ◌∷◌,
  ◌++◌, length, ltb, leb, ◌==◌, if◌then◌else◌,
}
use xelma_blockchain.Int.{ℤ, pos, leb_ℤ, ltb_ℤ}
use xelma_blockchain.Machine.{
  checked_add, checked_sub, checked_mul, checked_u, saturating_add, u32_mod, u64_mod, quot,
}
use xelma_blockchain.Errors
use xelma_blockchain.Errors.{Result, ok, err, panic, ok_or, or_panic, ◌>>=◌, ◌>>◌}
use xelma_blockchain.SettlementMath.Common.{bps_denominator}
use xelma_blockchain.Contract.State.{
  Env, require_auth, Map, put, remove, put_in_round, remove_in_round, unwrap_or, is_some, Storage,
  Rounds, Round, RoundMode, up_down, precision, BetSide, bet_up, bet_down, UserPosition,
  PrecisionPrediction, PrecisionCommitment, UserRoundOutcome, UserOutcomeType, refund,
}
use xelma_blockchain.Contract.Admin.{
  _require_supported_schema, _ensure_not_paused, _ensure_normal_mode, admin_auth,
}
use xelma_blockchain.Contract.AccessControl.{_enforce_access_control}
use xelma_blockchain.Contract.Balances.{
  balance, _set_balance, exceeds_cap, _enforce_min_bet, _accumulate_pending, assert_no_active_round,
}
use xelma_blockchain.Contract.Fees.{_collect_protocol_fee}

abbrev pub with_rounds : Storage → Rounds → Storage
with_rounds s rounds = record s { rounds = rounds }

-- `exposure.saturating_add(…)` of an entry that may be there.
abbrev pub add_exposure : ℤ → Option ℤ → ℤ
add_exposure exposure none = exposure
add_exposure exposure (some amount) = saturating_add exposure amount

unfoldable pub _user_round_exposure : Storage → ℕ → ℕ → ℤ
_user_round_exposure s round_id user =
    add_exposure
      (add_exposure
        (add_exposure (pos 0)
          (elim (s.rounds.position round_id user) [ none ↦ none | some p ↦ some p.amount ]))
        (elim (s.rounds.precision_position round_id user) [ none ↦ none | some p ↦ some p.amount ]))
      (elim (s.rounds.precision_commitment round_id user) [ none ↦ none | some c ↦ some c.amount ])

unfoldable pub _enforce_user_round_exposure : Storage → ℕ → ℕ → ℤ → Result (Unit {0})
_enforce_user_round_exposure s round_id user additional_amount =
    elim s.config.max_user_round_exposure [
      | none ↦ ok tt
      | some max_exposure ↦ (do
        next ←
            ok_or (checked_add (_user_round_exposure s round_id user) additional_amount)
              Errors.overflow
        if ltb_ℤ max_exposure next then err Errors.exposure_cap_exceeded else ok tt)
    ]

-- The amount of a stake: positive, at least the minimum bet, at most the maximum stake.
unfoldable pub amount_checks : ℤ → Storage → Result (Unit {0})
amount_checks amount s = if leb_ℤ amount (pos 0) then err Errors.invalid_bet_amount else (do
  _enforce_min_bet s amount
  if exceeds_cap amount s.config.max_stake then err Errors.stake_exceeds_max else ok tt)

abbrev pub mode_is : RoundMode → RoundMode → Bool
mode_is up_down up_down = true
mode_is precision precision = true
mode_is _ _ = false

unfoldable pub require_mode : RoundMode → Round → Errors.ContractError → Result (Unit {0})
require_mode mode round e = if mode_is round.mode mode then ok tt else err e

-- Betting is open, and not within the close buffer.
unfoldable pub window_checks : Env → Round → Storage → Result (Unit {0})
window_checks env round s =
    let close_buffer_ledgers = unwrap_or s.config.close_buffer_ledgers 0 in
    if leb round.bet_end_ledger env.sequence
    then err Errors.round_ended
    else if ltb 0 close_buffer_ledgers
        && leb (round.bet_end_ledger - close_buffer_ledgers) env.sequence
    then err Errors.round_ended
    else ok tt

-- `user_balance < amount` is refused; otherwise the balance is reduced.
unfoldable pub deduct_balance : ℕ → ℤ → Storage → Result Storage
deduct_balance user amount s = do
  new_balance ← ok_or (checked_sub (balance s user) amount) Errors.overflow
  ok (_set_balance s user new_balance)

unfoldable pub require_balance : ℕ → ℤ → Storage → Result (Unit {0})
require_balance user amount s =
    if ltb_ℤ (balance s user) amount then err Errors.insufficient_balance else ok tt

abbrev pub participants_of : Storage → ℕ → List ℕ
participants_of s round_id = unwrap_or (s.rounds.participants round_id) []

-- The round with a bet in its pools.
unfoldable pub add_to_pool : BetSide → ℤ → Round → Result Round
add_to_pool bet_up amount round = do
  pool_up ← ok_or (checked_add round.pool_up amount) Errors.overflow
  ok (record round { pool_up = pool_up })
add_to_pool bet_down amount round = do
  pool_down ← ok_or (checked_add round.pool_down amount) Errors.overflow
  ok (record round { pool_down = pool_down })

-- The writes of a bet under the round's keys.
abbrev pub write_bet : ℕ → ℤ → BetSide → Round → Storage → Storage
write_bet user amount side round s = with_rounds s (record s.rounds {
  position =
      put_in_round s.rounds.position round.round_id user (record { amount = amount; side = side });
  participants =
      put s.rounds.participants round.round_id (participants_of s round.round_id ++ user ∷ []);
  active_round = some round;
})

unfoldable pub place_bet : Env → ℕ → ℤ → BetSide → Storage → Result Storage
place_bet env user amount side s = do
  _v ← _require_supported_schema s
  require_auth env user
  _ensure_normal_mode s
  _enforce_access_control s user
  amount_checks amount s
  round ← ok_or s.rounds.active_round Errors.no_active_round
  _enforce_user_round_exposure s round.round_id user amount
  require_mode up_down round Errors.wrong_mode_for_prediction
  window_checks env round s
  require_balance user amount s
  if is_some (s.rounds.position round.round_id user) then err Errors.already_bet else (do
    s' ← deduct_balance user amount s
    round' ← add_to_pool side amount round
    ok (write_bet user amount side round' s'))
