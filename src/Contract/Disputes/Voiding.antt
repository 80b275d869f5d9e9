-- ===== src/Contract/Disputes/Voiding.antt =====
-- What the loop of `void_round` (contracts/src/settlement.rs) pays back.
use xelma_blockchain.Prelude.{ℕ, ◌≡◌, refl, sym, ap, ◌∙◌, Option, none, some, List, [], ◌∷◌, arith}
use xelma_blockchain.Int.{ℤ, pos, ltb_ℤ, sum_ℤ}
use xelma_blockchain.Machine.{checked_add}
use xelma_blockchain.Errors.{
  Ensures, Ensures-ok, Ensures-bind, Ensures-ok_or, Ensures-if, Ensures-weaken,
}
use xelma_blockchain.SettlementMath.Common.{payout_add}
use xelma_blockchain.Contract.State.{
  Env, Storage, Rounds, RoundMode, up_down, precision, UserPosition, UserRoundOutcome, void,
}
use xelma_blockchain.Contract.Balances.{_accumulate_pending}
use xelma_blockchain.Contract.CashOut.{_persist_user_outcome}
use xelma_blockchain.Contract.CashOut.Payments.{Accumulated, _accumulate_pending-Accumulated}
use xelma_blockchain.Contract.Settlement.{refund_outcome}
use xelma_blockchain.Contract.Settlement.Payments.{Paid, recorded-Paid}
use xelma_blockchain.Contract.Settlement.Refunds.{stake_of}
use xelma_blockchain.Contract.PrecisionResolution.{staked_amount, precision_outcome}
use xelma_blockchain.Contract.PrecisionResolution.Awards.{
  to_user, refundable, both-Paid, same-Paid, unpaid-Paid, nothing_to,
}
use xelma_blockchain.Contract.Disputes.Calls.{
  predicted_price_of, void_position, void_stake, void_participant, void_participants,
}

-- A user's stake in a round.
abbrev pub stake_at : RoundMode → ℕ → Rounds → ℕ → ℤ
stake_at up_down round_id rounds user = stake_of (rounds.position round_id user)
stake_at precision round_id rounds user = refundable (
    staked_amount (rounds.precision_position round_id user)
      (rounds.precision_commitment round_id user))

-- A user's stakes, once for each time that the list names the user.
abbrev pub stakes_due : RoundMode → ℕ → Rounds → List ℕ → ℕ → ℤ
stakes_due mode round_id rounds users v =
    sum_ℤ (λ u. to_user u (stake_at mode round_id rounds u) v) users

-- The outcomes are all of the rounds that may change.
pub record SameStakes (s s' : Storage) : Type 0 where
  pub same_position : s'.rounds.position ≡ s.rounds.position
  pub same_precision_position : s'.rounds.precision_position ≡ s.rounds.precision_position
  pub same_precision_commitment : s'.rounds.precision_commitment ≡ s.rounds.precision_commitment
  pub same_active_round : s'.rounds.active_round ≡ s.rounds.active_round

pub SameStakes-refl : (s : Storage) → SameStakes s s
SameStakes-refl s = record {
  same_position = refl;
  same_precision_position = refl;
  same_precision_commitment = refl;
  same_active_round = refl;
}

pub then-SameStakes : (s s1 s2 : Storage) → SameStakes s s1 → SameStakes s1 s2 → SameStakes s s2
then-SameStakes s s1 s2 a b = record {
  same_position = b.same_position ∙ a.same_position;
  same_precision_position = b.same_precision_position ∙ a.same_precision_position;
  same_precision_commitment = b.same_precision_commitment ∙ a.same_precision_commitment;
  same_active_round = b.same_active_round ∙ a.same_active_round;
}

outcome-stakes :
    (round_id : ℕ) (o : UserRoundOutcome) (s : Storage)
    → ((_persist_user_outcome round_id o s).rounds.position ≡ s.rounds.position)
      × ((_persist_user_outcome round_id o s).rounds.precision_position
          ≡ s.rounds.precision_position)
      × ((_persist_user_outcome round_id o s).rounds.precision_commitment
          ≡ s.rounds.precision_commitment)
      × ((_persist_user_outcome round_id o s).rounds.active_round ≡ s.rounds.active_round)
unfolding _persist_user_outcome
outcome-stakes round_id o s = ground arith

-- A stake paid back and recorded.
abbrev pub Returned : (ℕ → ℤ) → Storage → ℤ × Storage → Type 0
Returned owed s (total, s') = Paid owed s s' × SameStakes s s'

pub recorded-Returned :
    (user round_id : ℕ) (amount total : ℤ) (o : UserRoundOutcome) (s s' : Storage)
    → Accumulated user amount s s'
    → Returned (to_user user amount) s (total, _persist_user_outcome round_id o s')
recorded-Returned user round_id amount total o s s' a =
    let (positions, precisions, commitments, active) = outcome-stakes round_id o s' in
    (
      recorded-Paid user round_id amount o s s' a,
      record {
        same_position = positions ∙ ap (λ r. r.position) a.keeps_rounds;
        same_precision_position = precisions ∙ ap (λ r. r.precision_position) a.keeps_rounds;
        same_precision_commitment = commitments ∙ ap (λ r. r.precision_commitment) a.keeps_rounds;
        same_active_round = active ∙ ap (λ r. r.active_round) a.keeps_rounds;
      },
    )

pub nothing-Returned :
    (user : ℕ) (total : ℤ) (s : Storage) → Returned (to_user user (pos 0)) s (total, s)
nothing-Returned user total s = (
  same-Paid (λ v. pos 0) (to_user user (pos 0)) s s (λ v. sym (nothing_to user v)) (unpaid-Paid s),
  SameStakes-refl s,
)

module _ (env : Env) (round_id : ℕ) where
  void_position-Returned :
      (user : ℕ) (o : Option UserPosition) (total : ℤ) (s : Storage)
      → Ensures
          (Returned (to_user user (stake_of o)) s)
          (void_position env round_id user o (total, s))
  unfolding void_position payout_add
  void_position-Returned user none total s = nothing-Returned user total s
  void_position-Returned user (some p) total s =
      Ensures-ok_or _ (checked_add total p.amount) _ _ (λ total' e.
        Ensures-bind _ (_accumulate_pending env user p.amount s) _ (λ s' e'.
          recorded-Returned user round_id p.amount total'
            (record (refund_outcome 0 user p) { outcome = void }) s s'
            (Ensures-ok _ _ (_accumulate_pending-Accumulated env user p.amount s) e')))

  void_stake-Returned :
      (user price : ℕ) (stake total : ℤ) (s : Storage)
      → Ensures
          (Returned (to_user user (refundable stake)) s)
          (void_stake env round_id user price stake (total, s))
  unfolding void_stake payout_add
  void_stake-Returned user price stake total s =
      Ensures-if _ (ltb_ℤ (pos 0) stake) _ _
        (λ h. rw h (
          Ensures-ok_or _ (checked_add total stake) _ _ (λ total' e.
            Ensures-bind _ (_accumulate_pending env user stake s) _ (λ s' e'.
              recorded-Returned user round_id stake total'
                (precision_outcome user price stake stake void) s s'
                (Ensures-ok _ _ (_accumulate_pending-Accumulated env user stake s) e')))))
        (λ h. rw h (nothing-Returned user total s))

  void_participant-Returned :
      (mode : RoundMode) (user : ℕ) (total : ℤ) (s : Storage)
      → Ensures
          (Returned (to_user user (stake_at mode round_id s.rounds user)) s)
          (void_participant env round_id mode user (total, s))
  unfolding void_participant
  void_participant-Returned up_down user total s =
      void_position-Returned user (s.rounds.position round_id user) total s
  void_participant-Returned precision user total s =
      void_stake-Returned user (predicted_price_of (s.rounds.precision_position round_id user))
        (staked_amount (s.rounds.precision_position round_id user)
          (s.rounds.precision_commitment round_id user))
        total s

  pub same_due :
      (mode : RoundMode) (users : List ℕ) (s s1 : Storage) (v : ℕ)
      → SameStakes s s1
      → stakes_due mode round_id s1.rounds users v ≡ stakes_due mode round_id s.rounds users v
  same_due up_down users s s1 v same =
      ap (λ m. sum_ℤ (λ u. to_user u (stake_of (m round_id u)) v) users) same.same_position
  same_due precision users s s1 v same =
      rw (same.same_precision_position, same.same_precision_commitment) refl

  pub void_participants-Returned :
      (mode : RoundMode) (users : List ℕ) (total : ℤ) (s : Storage)
      → Ensures
          (Returned (stakes_due mode round_id s.rounds users) s)
          (void_participants env round_id mode users (total, s))
  unfolding void_participants
  void_participants-Returned mode [] total s = (unpaid-Paid s, SameStakes-refl s)
  void_participants-Returned mode (user ∷ users) total s =
      let first = to_user user (stake_at mode round_id s.rounds user) in
      Ensures-bind _ (void_participant env round_id mode user (total, s)) _ (λ (total', s1) e.
        let (paid, same) = Ensures-ok _ _ (void_participant-Returned mode user total s) e in
        Ensures-weaken (void_participants env round_id mode users (total', s1))
          (λ (t, s2) (paid', same'). (
            both-Paid first (stakes_due mode round_id s.rounds users) s s1 s2 paid
                (same-Paid _ _ s1 s2 (λ v. same_due mode users s s1 v same) paid'),
            then-SameStakes s s1 s2 same same',
          ))
          (void_participants-Returned mode users total' s1))
