-- ===== src/Contract/Cancellation/Stakes.antt =====
-- The refunds of `cancel_round` (contracts/src/settlement.rs) and the stakes that it notes.
use xelma_blockchain.Prelude.{
  ℕ, ◌+◌, ◌<◌, ◌≡◌, refl, sym, ap, ◌∙◌, Option, none, some, List, [], ◌∷◌, arith, All, sum_by,
  if◌then◌else◌,
}
use xelma_blockchain.Int.{ℤ, pos, pos_part, ltb_ℤ, nonneg-eq}
use xelma_blockchain.Machine.{i128_half}
use xelma_blockchain.Machine.Laws.{checked_add_fits}
use xelma_blockchain.Errors.{ok, Ensures, Ensures-ok, Ensures-bind, Ensures-if}
use xelma_blockchain.SettlementMath.Pot.Weighted.{IsStake}
use xelma_blockchain.Contract.State.{
  Env, Storage, Rounds, RoundMode, up_down, precision, UserPosition, void,
}
use xelma_blockchain.Contract.Balances.{_accumulate_pending}
use xelma_blockchain.Contract.CashOut.Payments.{Accumulated, _accumulate_pending-Accumulated}
use xelma_blockchain.Contract.Settlement.{refund_outcome}
use xelma_blockchain.Contract.Settlement.Refunds.{stake_of}
use xelma_blockchain.Contract.Settlement.Winnings.{nothing-Accumulated}
use xelma_blockchain.Contract.PrecisionResolution.{staked_amount, precision_outcome}
use xelma_blockchain.Contract.PrecisionResolution.Awards.{
  to_user, refundable, both-Paid, same-Paid, unpaid-Paid,
}
use xelma_blockchain.Contract.Disputes.Voiding.{
  stake_at, stakes_due, SameStakes, SameStakes-refl, then-SameStakes, Returned, recorded-Returned,
  nothing-Returned, same_due,
}
use xelma_blockchain.Contract.Cancellation.{
  cancel_position, cancel_stake, cancel_participant, push_stake, add_stake, cancel_participants,
}

-- A user's stake, of either sign.
abbrev pub raw_stake : RoundMode → ℕ → Rounds → ℕ → ℤ
raw_stake up_down round_id rounds user = stake_of (rounds.position round_id user)
raw_stake precision round_id rounds user =
    staked_amount (rounds.precision_position round_id user)
      (rounds.precision_commitment round_id user)

abbrev noted_amount : Option ℤ → ℤ
noted_amount none = pos 0
noted_amount (some a) = a

-- One stake paid back and noted.
abbrev ReturnedNoted : (ℕ → ℤ) → ℤ → Storage → Option ℤ × Storage → Type 0
ReturnedNoted owed raw s (o, s') = Returned owed s (pos 0, s') × (noted_amount o ≡ raw)

module _ (env : Env) (round_id : ℕ) where
  cancel_position-ReturnedNoted :
      (user : ℕ) (o : Option UserPosition) (s : Storage)
      → Ensures
          (ReturnedNoted (to_user user (stake_of o)) (stake_of o) s)
          (cancel_position env round_id user o s)
  unfolding cancel_position
  cancel_position-ReturnedNoted user none s = (nothing-Returned user (pos 0) s, refl)
  cancel_position-ReturnedNoted user (some p) s =
      Ensures-bind _ (_accumulate_pending env user p.amount s) _ (λ s' e. (
        recorded-Returned user round_id p.amount (pos 0)
            (record (refund_outcome 0 user p) { outcome = void }) s s'
            (Ensures-ok _ _ (_accumulate_pending-Accumulated env user p.amount s) e),
        refl,
      ))

  refund-Accumulated :
      (user : ℕ) (amount : ℤ) (s : Storage)
      → Ensures
          (Accumulated user (refundable amount) s)
          (if ltb_ℤ (pos 0) amount then _accumulate_pending env user amount s else ok s)
  refund-Accumulated user amount s =
      Ensures-if _ (ltb_ℤ (pos 0) amount) _ _
        (λ h. rw h (_accumulate_pending-Accumulated env user amount s))
        (λ h. rw h (nothing-Accumulated user s))

  cancel_stake-ReturnedNoted :
      (user : ℕ) (amount : ℤ) (s : Storage)
      → Ensures
          (ReturnedNoted (to_user user (refundable amount)) amount s)
          (cancel_stake env round_id user amount s)
  unfolding cancel_stake
  cancel_stake-ReturnedNoted user amount s =
      Ensures-bind _ (if ltb_ℤ (pos 0) amount then _accumulate_pending env user amount s else ok s)
        _
        (λ s' e. (
          recorded-Returned user round_id (refundable amount) (pos 0)
              (precision_outcome user 0 amount amount void) s s'
              (Ensures-ok _ _ (refund-Accumulated user amount s) e),
          refl,
        ))

  cancel_participant-ReturnedNoted :
      (mode : RoundMode) (user : ℕ) (s : Storage)
      → Ensures
          (ReturnedNoted
            (to_user user (stake_at mode round_id s.rounds user))
            (raw_stake mode round_id s.rounds user)
            s)
          (cancel_participant env round_id mode user s)
  unfolding cancel_participant
  cancel_participant-ReturnedNoted up_down user s =
      cancel_position-ReturnedNoted user (s.rounds.position round_id user) s
  cancel_participant-ReturnedNoted precision user s =
      cancel_stake-ReturnedNoted user
        (staked_amount (s.rounds.precision_position round_id user)
          (s.rounds.precision_commitment round_id user))
        s

  pub cancel_participants-Returned :
      (mode : RoundMode) (users : List ℕ) (total : ℤ) (s : Storage)
      → Ensures
          (λ (noted, s'). Returned (stakes_due mode round_id s.rounds users) s (pos 0, s'))
          (cancel_participants env round_id mode users total s)
  unfolding cancel_participants
  cancel_participants-Returned mode [] total s = (unpaid-Paid s, SameStakes-refl s)
  cancel_participants-Returned mode (user ∷ users) total s =
      let first = to_user user (stake_at mode round_id s.rounds user) in
      Ensures-bind _ (cancel_participant env round_id mode user s) _ (λ (o, s1) e.
        let ((paid, same), _noted) =
          Ensures-ok _ _ (cancel_participant-ReturnedNoted mode user s) e in
        Ensures-bind _ (cancel_participants env round_id mode users (add_stake o total) s1) _
          (λ ((stakes, t), s2) e2.
            let (paid', same') =
              Ensures-ok _ _ (cancel_participants-Returned mode users (add_stake o total) s1) e2 in
            (
              both-Paid first (stakes_due mode round_id s.rounds users) s s1 s2 paid
                  (same-Paid _ _ s1 s2 (λ v. same_due env round_id mode users s s1 v same) paid'),
              then-SameStakes s s1 s2 same same',
            )))

-- The stakes noted are those of the users, and the total is their sum.
abbrev pub Noted : (ℕ → ℤ) → List ℕ → ℕ → List ℤ × ℤ → Type 0
Noted raw users acc (stakes, total) =
    All IsStake stakes
    × (sum_by pos_part stakes ≡ sum_by (λ u. pos_part (raw u)) users)
    × (total ≡ pos (acc + sum_by (λ u. pos_part (raw u)) users))

push-All :
    (o : Option ℤ) (stakes : List ℤ)
    → IsStake (noted_amount o)
    → All IsStake stakes
    → All IsStake (push_stake o stakes)
push-All none stakes h hs = hs
push-All (some a) stakes h hs = (h, hs)

push-sum :
    (o : Option ℤ) (stakes : List ℤ)
    → sum_by pos_part (push_stake o stakes) ≡ pos_part (noted_amount o) + sum_by pos_part stakes
push-sum none stakes = omega arith
push-sum (some a) stakes = refl

add_stake-fits :
    (o : Option ℤ) (acc : ℕ)
    → IsStake (noted_amount o)
    → acc + pos_part (noted_amount o) < i128_half
    → add_stake o (pos acc) ≡ pos (acc + pos_part (noted_amount o))
add_stake-fits none acc h fits = ap pos (omega arith)
add_stake-fits (some a) acc h fits = rw (nonneg-eq a h, checked_add_fits acc (pos_part a) fits) refl

same_raw :
    (mode : RoundMode) (round_id u : ℕ) (s s1 : Storage)
    → SameStakes s s1
    → raw_stake mode round_id s1.rounds u ≡ raw_stake mode round_id s.rounds u
same_raw up_down round_id u s s1 same = ap (λ m. stake_of (m round_id u)) same.same_position
same_raw precision round_id u s s1 same =
    rw (same.same_precision_position, same.same_precision_commitment) refl

pub cancel_participants-Noted :
    (env : Env) (round_id : ℕ) (mode : RoundMode) (raw : ℕ → ℤ) (users : List ℕ) (acc : ℕ)
    (s : Storage)
    → ((u : ℕ) → raw_stake mode round_id s.rounds u ≡ raw u)
    → All (λ u. IsStake (raw u)) users
    → acc + sum_by (λ u. pos_part (raw u)) users < i128_half
    → Ensures
        (λ (noted, s'). Noted raw users acc noted)
        (cancel_participants env round_id mode users (pos acc) s)
unfolding cancel_participants
cancel_participants-Noted env round_id mode raw [] acc s is_raw stakes fits =
    (tt, refl, ap pos (omega arith))
cancel_participants-Noted env round_id mode raw (user ∷ users) acc s is_raw (stake, stakes) fits =
    Ensures-bind _ (cancel_participant env round_id mode user s) _ (λ (o, s1) e.
      let ((paid, same), noted) =
        Ensures-ok _ _ (cancel_participant-ReturnedNoted env round_id mode user s) e in
      let is_one : noted_amount o ≡ raw user = noted ∙ is_raw user in
      let added : add_stake o (pos acc) ≡ pos (acc + pos_part (raw user)) =
        rw (sym is_one) (add_stake-fits o acc (rw is_one stake) (rw is_one (omega arith))) in
      rw added (
        Ensures-bind _
          (cancel_participants env round_id mode users (pos (acc + pos_part (raw user))) s1) _
          (λ ((rest, t), s2) e2.
            let (are, sums, totals) =
              Ensures-ok _ _
                (cancel_participants-Noted env round_id mode raw users (acc + pos_part (raw user))
                  s1 (λ u. same_raw mode round_id u s s1 same ∙ is_raw u) stakes (omega arith))
                e2 in
            (
              push-All o rest (rw is_one stake) are,
              push-sum o rest ∙ rw (is_one, sums) refl,
              totals ∙ ap pos (omega arith),
            ))))
