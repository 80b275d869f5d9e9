-- ===== src/Contract/Betting/Placement.antt =====
-- What `place_bet` of contracts/src/betting.rs has checked and moved when it succeeds.
use xelma_blockchain.Prelude.{
  ℕ, ◌<◌, ◌≡◌, ◌≢◌, refl, sym, ap, subst, ◌∙◌, true, false, Option, none, some, [], ◌∷◌, ◌++◌,
  arith, ◌==◌, if◌then◌else◌,
}
use xelma_blockchain.Int.{ℤ, pos, ◌+ℤ◌, ◌-ℤ◌, ◌≤ℤ◌}
use xelma_blockchain.Machine.{checked_sub, checked_add}
use xelma_blockchain.Machine.Laws.{checked_add-eq-some, checked_sub-eq-some}
use xelma_blockchain.Errors
use xelma_blockchain.Errors.{ok, Ensures, Ensures-ok, Ensures-bind, Ensures-if, Ensures-ok_or}
use xelma_blockchain.Contract.State.{
  Env, require_auth, put, put-same, put_in_round, unwrap_or, is_some, Storage, Round, BetSide,
  bet_up, bet_down, up_down,
}
use xelma_blockchain.Contract.Admin.{_require_supported_schema, _ensure_normal_mode}
use xelma_blockchain.Contract.AccessControl.{_enforce_access_control}
use xelma_blockchain.Contract.Balances.{balance, _set_balance, pending_of}
use xelma_blockchain.Contract.Betting.{
  amount_checks, require_mode, window_checks, require_balance, deduct_balance, add_to_pool,
  write_bet, place_bet, participants_of, _enforce_user_round_exposure,
}

-- The pool that a side bets into.
abbrev pub pool : BetSide → Round → ℤ
pool bet_up round = round.pool_up
pool bet_down round = round.pool_down

abbrev pub other_side : BetSide → BetSide
other_side bet_up = bet_down
other_side bet_down = bet_up

-- A round whose pool on one side has grown.
pub record PoolGrown (side : BetSide) (amount : ℤ) (round round' : Round) : Type 0 where
  pub grows : pool side round' ≡ pool side round +ℤ amount
  pub keeps_other : pool (other_side side) round' ≡ pool (other_side side) round
  pub keeps_id : round'.round_id ≡ round.round_id
  pub keeps_mode : round'.mode ≡ round.mode

add_to_pool-PoolGrown :
    (side : BetSide) (amount : ℤ) (round : Round)
    → Ensures (PoolGrown side amount round) (add_to_pool side amount round)
unfolding add_to_pool
add_to_pool-PoolGrown bet_up amount round =
    Ensures-ok_or _ (checked_add round.pool_up amount) _ _ (λ p e. record {
      grows = checked_add-eq-some _ _ e;
      keeps_other = refl;
      keeps_id = refl;
      keeps_mode = refl;
    })
add_to_pool-PoolGrown bet_down amount round =
    Ensures-ok_or _ (checked_add round.pool_down amount) _ _ (λ p e. record {
      grows = checked_add-eq-some _ _ e;
      keeps_other = refl;
      keeps_id = refl;
      keeps_mode = refl;
    })

-- A bet placed on the active round.
pub record Placed (env : Env) (user : ℕ) (amount : ℤ) (side : BetSide) (s s' : Storage)
    : Type 0 where
  pub round : Round
  pub round' : Round
  pub was_active : s.rounds.active_round ≡ some round
  pub is_active : s'.rounds.active_round ≡ some round'
  pub in_window : env.sequence < round.bet_end_ledger
  pub grown : PoolGrown side amount round round'
  pub is_positive : pos 1 ≤ℤ amount
  pub covered : amount ≤ℤ balance s user
  pub signed : env.authorised user ≡ true
  pub was_free : s.rounds.position round.round_id user ≡ none
  pub pays : balance s' user ≡ balance s user -ℤ amount
  pub keeps_balances : (v : ℕ) → v ≢ user → balance s' v ≡ balance s v
  pub keeps_pending : (v : ℕ) → pending_of s' v ≡ pending_of s v
  pub positions :
      s'.rounds.position
      ≡ put_in_round s.rounds.position round.round_id user (record { amount = amount; side = side })
  pub listed : participants_of s' round.round_id ≡ participants_of s round.round_id ++ user ∷ []

amount_checks-Ensures :
    (amount : ℤ) (s : Storage) → Ensures (λ t. pos 1 ≤ℤ amount) (amount_checks amount s)
unfolding amount_checks
amount_checks-Ensures amount s = ground arith

window_checks-Ensures :
    (env : Env) (round : Round) (s : Storage)
    → Ensures (λ t. env.sequence < round.bet_end_ledger) (window_checks env round s)
unfolding window_checks
window_checks-Ensures env round s = ground arith

require_balance-Ensures :
    (user : ℕ) (amount : ℤ) (s : Storage)
    → Ensures (λ t. amount ≤ℤ balance s user) (require_balance user amount s)
unfolding require_balance
require_balance-Ensures user amount s = ground arith

require_auth-Ensures :
    (env : Env) (user : ℕ) → Ensures (λ t. env.authorised user ≡ true) (require_auth env user)
unfolding require_auth
require_auth-Ensures env user = ground arith

is_some-false : {A : Type 0} (o : Option A) → is_some o ≡ false → o ≡ none
is_some-false none h = refl
is_some-false (some a) h = cc

balance-set :
    (s : Storage) (user : ℕ) (b : ℤ) (v : ℕ)
    → balance (_set_balance s user b) v ≡ (if v == user then b else balance s v)
unfolding balance _set_balance put
balance-set s user b v = ground arith

module _ (env : Env) (user : ℕ) (amount : ℤ) (side : BetSide) (s : Storage) (round round' : Round)
    (new_balance : ℤ) (g : PoolGrown side amount round round') where
  abbrev paid_storage : Storage
  paid_storage = write_bet user amount side round' (_set_balance s user new_balance)

  paid-balance : (v : ℕ) → balance paid_storage v ≡ (if v == user then new_balance else balance s v)
  unfolding balance
  paid-balance v = balance-set s user new_balance v

  paid-pending : (v : ℕ) → pending_of paid_storage v ≡ pending_of s v
  unfolding pending_of _set_balance
  paid-pending v = refl

  paid-positions :
      paid_storage.rounds.position
      ≡ put_in_round s.rounds.position round.round_id user (record { amount = amount; side = side })
  unfolding _set_balance
  paid-positions =
      ap (λ i. put_in_round s.rounds.position i user (record { amount = amount; side = side }))
        g.keeps_id

  paid-listed :
      participants_of paid_storage round.round_id ≡ participants_of s round.round_id ++ user ∷ []
  unfolding _set_balance
  paid-listed =
      ap
        (λ i.
          unwrap_or (put s.rounds.participants i (participants_of s i ++ user ∷ []) round.round_id)
            [])
        g.keeps_id
      ∙ ap (λ o. unwrap_or o [])
          (put-same s.rounds.participants round.round_id
            (participants_of s round.round_id ++ user ∷ []))

deduct_balance-Ensures :
    (user : ℕ) (amount : ℤ) (s : Storage)
    → Ensures
        (λ s'. s' ≡ _set_balance s user (balance s user -ℤ amount))
        (deduct_balance user amount s)
unfolding deduct_balance
deduct_balance-Ensures user amount s =
    Ensures-ok_or _ (checked_sub (balance s user) amount) _ _
      (λ b e. ap (_set_balance s user) (checked_sub-eq-some _ _ e))

written-Placed :
    (env : Env) (user : ℕ) (amount : ℤ) (side : BetSide) (s : Storage) (round round' : Round)
    → PoolGrown side amount round round'
    → s.rounds.active_round ≡ some round
    → env.sequence < round.bet_end_ledger
    → pos 1 ≤ℤ amount
    → amount ≤ℤ balance s user
    → env.authorised user ≡ true
    → s.rounds.position round.round_id user ≡ none
    → Placed env user amount side s
        (write_bet user amount side round' (_set_balance s user (balance s user -ℤ amount)))
written-Placed env user amount side s round round' g active in_window positive covered signed free =
    let b = balance s user -ℤ amount in
    record {
      round = round;
      round' = round';
      was_active = active;
      is_active = refl;
      in_window = in_window;
      grown = g;
      is_positive = positive;
      covered = covered;
      signed = signed;
      was_free = free;
      pays = rw (paid-balance env user amount side s round round' b g user) (ground arith);
      keeps_balances =
          λ v ne. rw (paid-balance env user amount side s round round' b g v) (ground arith);
      keeps_pending = paid-pending env user amount side s round round' b g;
      positions = paid-positions env user amount side s round round' b g;
      listed = paid-listed env user amount side s round round' b g;
    }

place_bet-Ensures :
    (env : Env) (user : ℕ) (amount : ℤ) (side : BetSide) (s : Storage)
    → Ensures (Placed env user amount side s) (place_bet env user amount side s)
unfolding place_bet
place_bet-Ensures env user amount side s = Ensures-bind _ (_require_supported_schema s) _ (λ v e1.
    Ensures-bind _ (require_auth env user) _ (λ t1 signed.
      Ensures-bind _ (_ensure_normal_mode s) _ (λ t2 e3.
        Ensures-bind _ (_enforce_access_control s user) _ (λ t3 e4.
          Ensures-bind _ (amount_checks amount s) _ (λ t4 positive.
            Ensures-ok_or _ s.rounds.active_round _ _ (λ round e6.
              Ensures-bind _ (_enforce_user_round_exposure s round.round_id user amount) _ (λ t5 e7.
                Ensures-bind _ (require_mode up_down round Errors.wrong_mode_for_prediction) _
                  (λ t6 e8. Ensures-bind _ (window_checks env round s) _ (λ t7 in_window.
                    Ensures-bind _ (require_balance user amount s) _ (λ t8 covered.
                      Ensures-if _ (is_some (s.rounds.position round.round_id user)) _ _ (λ e. tt)
                        (λ free. Ensures-bind _ (deduct_balance user amount s) _ (λ s1 deducted.
                          Ensures-bind _ (add_to_pool side amount round) _ (λ round' grown.
                            subst
                              (λ st.
                                Placed env user amount side s
                                  (write_bet user amount side round' st))
                              (sym (Ensures-ok _ _ (deduct_balance-Ensures user amount s) deducted))
                              (written-Placed env user amount side s round round'
                                (Ensures-ok _ _ (add_to_pool-PoolGrown side amount round) grown) e6
                                (Ensures-ok _ _ (window_checks-Ensures env round s) in_window)
                                (Ensures-ok _ _ (amount_checks-Ensures amount s) positive)
                                (Ensures-ok _ _ (require_balance-Ensures user amount s) covered)
                                (Ensures-ok _ _ (require_auth-Ensures env user) signed)
                                (is_some-false _ free)))))))))))))))

-- A bet that is accepted was signed by the user, has a positive amount that the user's balance covers,
-- comes before the active round's last betting ledger, and is the user's first in that round. It takes
-- the amount from the user's balance, adds it to the pool of its side of the active round, and writes
-- the position and the participant; no other balance, no pending winnings, and not the other pool
-- change.
pub place_bet-Placed :
    (env : Env) (user : ℕ) (amount : ℤ) (side : BetSide) (s : Storage) {s' : Storage}
    → place_bet env user amount side s ≡ ok s'
    → Placed env user amount side s s'
place_bet-Placed env user amount side s h =
    Ensures-ok _ _ (place_bet-Ensures env user amount side s) h
