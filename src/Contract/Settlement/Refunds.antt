-- ===== src/Contract/Settlement/Refunds.antt =====
-- `_record_refunds_indexed` of contracts/src/settlement.rs gives every participant its stake back.
use xelma_blockchain.Prelude.{ℕ, ◌≡◌, Option, none, some, List, [], ◌∷◌, ◌==◌, if◌then◌else◌}
use xelma_blockchain.Int.{ℤ, pos}
use xelma_blockchain.Errors.{ok, Ensures, Ensures-ok, Ensures-bind, Ensures-weaken}
use xelma_blockchain.Contract.State.{Env, Storage, UserPosition}
use xelma_blockchain.Contract.Balances.{_accumulate_pending}
use xelma_blockchain.Contract.CashOut.Payments.{_accumulate_pending-Accumulated}
use xelma_blockchain.Contract.Settlement.{
  refund_outcome, refund_participant, _record_refunds_indexed,
}
use xelma_blockchain.Contract.Settlement.Payments.{
  due, Paid, nothing-Paid, recorded-Paid, then-Paid, none-Paid,
}

abbrev pub stake_of : Option UserPosition → ℤ
stake_of none = pos 0
stake_of (some p) = p.amount

refund_participant-Paid :
    (env : Env) (round_id round_mode user : ℕ) (o : Option UserPosition) (s : Storage)
    → Ensures
        (Paid (λ v. if user == v then stake_of o else pos 0) s)
        (refund_participant env round_id round_mode user o s)
unfolding refund_participant
refund_participant-Paid env round_id round_mode user none s = nothing-Paid user s
refund_participant-Paid env round_id round_mode user (some p) s =
    Ensures-bind _ (_accumulate_pending env user p.amount s) _ (λ s' e.
      recorded-Paid user round_id p.amount (refund_outcome round_mode user p) s s'
        (Ensures-ok _ _ (_accumulate_pending-Accumulated env user p.amount s) e))

pub refunds-Paid :
    (env : Env) (round_id round_mode : ℕ) (users : List ℕ) (s : Storage)
    → Ensures
        (Paid (due stake_of (s.rounds.position round_id) users) s)
        (_record_refunds_indexed env round_id round_mode users s)
unfolding _record_refunds_indexed
refunds-Paid env round_id round_mode [] s = none-Paid stake_of (s.rounds.position round_id) s
refunds-Paid env round_id round_mode (user ∷ users) s =
    Ensures-bind _
      (refund_participant env round_id round_mode user (s.rounds.position round_id user) s) _
      (λ s1 e.
        Ensures-weaken (_record_refunds_indexed env round_id round_mode users s1)
          (λ s2 b.
            then-Paid stake_of round_id user users s s1 s2
              (Ensures-ok _ _
                (refund_participant-Paid env round_id round_mode user
                  (s.rounds.position round_id user) s)
                e)
              b)
          (refunds-Paid env round_id round_mode users s1))

-- A refund of a list of participants that returns adds to each user's pending winnings exactly the
-- user's stake in the round, once for each time the list names the user, and nothing for anybody else;
-- it changes no balance, no position, and neither the treasury nor the insurance fund.
pub _record_refunds_indexed-Paid :
    (env : Env) (round_id round_mode : ℕ) (users : List ℕ) (s : Storage) {s' : Storage}
    → _record_refunds_indexed env round_id round_mode users s ≡ ok s'
    → Paid (due stake_of (s.rounds.position round_id) users) s s'
_record_refunds_indexed-Paid env round_id round_mode users s h =
    Ensures-ok _ _ (refunds-Paid env round_id round_mode users s) h
