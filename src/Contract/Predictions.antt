-- ===== src/Contract/Predictions.antt =====
-- Precision rounds in contracts/src/betting.rs: open predictions, and commitments with their reveals.
-- SHA-256 over the encoded price and salt is code outside the repository: a parameter. A salt is its
-- list of bytes; a hash is a number, 0 for 32 zero bytes.
pub mod Reveal
use xelma_blockchain.Prelude.{
  ℕ, suc, Bool, true, false, not, ◌&&◌, ◌||◌, Option, none, some, List, [], ◌∷◌, ◌++◌, length, ltb,
  leb, ◌==◌, if◌then◌else◌,
}
use xelma_blockchain.Int.{ℤ}
use xelma_blockchain.Errors
use xelma_blockchain.Errors.{Result, ok, err, panic, ok_or, ◌>>=◌, ◌>>◌}
use xelma_blockchain.Contract.State.{
  Env, require_auth, put, put_in_round, unwrap_or, is_some, Storage, Round, precision,
  PrecisionPrediction, PrecisionCommitment,
}
use xelma_blockchain.Contract.Admin.{_require_supported_schema, _ensure_normal_mode}
use xelma_blockchain.Contract.AccessControl.{_enforce_access_control}
use xelma_blockchain.Contract.Betting.{
  with_rounds, amount_checks, require_mode, window_checks, require_balance, deduct_balance,
  participants_of, _enforce_user_round_exposure,
}

abbrev pub default_max_precision_participants : ℕ
default_max_precision_participants = 1_000

unfoldable pub get_max_precision_participants : Storage → ℕ
get_max_precision_participants s =
    unwrap_or s.config.max_precision_participants default_max_precision_participants

abbrev pub max_predicted_price : ℕ
max_predicted_price = 99_999_999

-- The user has predicted or committed in this round.
unfoldable pub has_predicted : Storage → ℕ → ℕ → Bool
has_predicted s round_id user =
    is_some (s.rounds.precision_position round_id user)
    || is_some (s.rounds.precision_commitment round_id user)

abbrev pub append_participant : ℕ → ℕ → Storage → Storage
append_participant round_id user s = with_rounds s (record s.rounds {
  participants = put s.rounds.participants round_id (participants_of s round_id ++ user ∷ []);
})

abbrev pub write_prediction : ℕ → ℕ → PrecisionPrediction → Storage → Storage
write_prediction round_id user prediction s = with_rounds s (record s.rounds {
  precision_position = put_in_round s.rounds.precision_position round_id user prediction;
})

abbrev pub write_commitment : ℕ → ℕ → PrecisionCommitment → Storage → Storage
write_commitment round_id user commitment s = with_rounds s (record s.rounds {
  precision_commitment = put_in_round s.rounds.precision_commitment round_id user commitment;
})

-- From the read of the active round to its window, as in predictions and commitments.
unfoldable pub precision_round : Env → ℕ → ℤ → Storage → Result Round
precision_round env user amount s = do
  round ← ok_or s.rounds.active_round Errors.no_active_round
  _enforce_user_round_exposure s round.round_id user amount
  require_mode precision round Errors.wrong_mode_for_prediction
  window_checks env round s
  ok round

unfoldable pub cap_checks : ℕ → ℕ → Storage → Result (Unit {0})
cap_checks round_id user s =
    if has_predicted s round_id user
    then err Errors.already_bet
    else if leb (get_max_precision_participants s) (length (participants_of s round_id))
    then err Errors.precision_cap_exceeded
    else ok tt

unfoldable pub place_precision_prediction : Env → ℕ → ℤ → ℕ → Storage → Result Storage
place_precision_prediction env user amount predicted_price s = do
  _v ← _require_supported_schema s
  require_auth env user
  _ensure_normal_mode s
  _enforce_access_control s user
  amount_checks amount s
  if ltb max_predicted_price predicted_price then err Errors.invalid_price else (do
    round ← precision_round env user amount s
    cap_checks round.round_id user s
    require_balance user amount s
    s' ← deduct_balance user amount s
    ok (
        append_participant round.round_id user (
          write_prediction round.round_id user
            (record { user = user; predicted_price = predicted_price; amount = amount }) s')))

unfoldable pub predict_price : Env → ℕ → ℕ → ℤ → Storage → Result Storage
predict_price env user guessed_price amount s =
    place_precision_prediction env user amount guessed_price s

unfoldable pub commit_prediction : Env → ℕ → ℕ → ℤ → Storage → Result Storage
commit_prediction env user hash amount s = do
  require_auth env user
  _ensure_normal_mode s
  _enforce_access_control s user
  if hash == 0 then err Errors.invalid_commitment else (do
    amount_checks amount s
    round ← precision_round env user amount s
    require_balance user amount s
    if has_predicted s round.round_id user then err Errors.already_bet else (do
      s' ← deduct_balance user amount s
      ok (
          append_participant round.round_id user (
            write_commitment round.round_id user
              (record { hash = hash; amount = amount; revealed = false }) s'))))

-- The loop over the salt's bytes: whether one is not zero, and whether one differs from the first.
unfoldable pub saw_nonzero : List ℕ → Bool
saw_nonzero [] = false
saw_nonzero (b ∷ bytes) = not (b == 0) || saw_nonzero bytes

unfoldable pub saw_different : ℕ → List ℕ → Bool
saw_different first [] = false
saw_different first (b ∷ bytes) = not (b == first) || saw_different first bytes

-- `bytes[0]` of a salt; a salt has 32 bytes, so the empty list does not occur.
unfoldable pub salt_has_minimum_entropy : List ℕ → Bool
salt_has_minimum_entropy [] = false
salt_has_minimum_entropy (first ∷ bytes) =
    saw_nonzero (first ∷ bytes) && saw_different first (first ∷ bytes)

unfoldable pub reveal_window : Env → Round → Result (Unit {0})
reveal_window env round =
    if ltb env.sequence round.bet_end_ledger || leb round.end_ledger env.sequence
    then err Errors.invalid_reveal_window
    else ok tt

module _ (sha256 : ℕ → List ℕ → ℕ) where
  -- The checks of a reveal against its commitment.
  unfoldable pub opens : ℕ → List ℕ → PrecisionCommitment → Result (Unit {0})
  opens predicted_price salt commitment =
      if commitment.revealed
      then err Errors.already_revealed
      else if not (sha256 predicted_price salt == commitment.hash)
      then err Errors.hash_mismatch
      else ok tt

  unfoldable pub reveal_prediction : Env → ℕ → ℕ → List ℕ → Storage → Result Storage
  reveal_prediction env user predicted_price salt s = do
    require_auth env user
    _ensure_normal_mode s
    _enforce_access_control s user
    if not (salt_has_minimum_entropy salt) then err Errors.invalid_salt else (do
      round ← ok_or s.rounds.active_round Errors.no_active_round
      require_mode precision round Errors.wrong_mode_for_prediction
      reveal_window env round
      commitment ←
          ok_or (s.rounds.precision_commitment round.round_id user) Errors.commitment_not_found
      opens predicted_price salt commitment
      ok (
          write_prediction round.round_id user
            (record { user = user; predicted_price = predicted_price; amount = commitment.amount })
            (write_commitment round.round_id user (record commitment { revealed = true }) s)))
