-- ===== src/Contract/Cancellation/Fund.antt =====
-- The refunds of `cancel_round` (contracts/src/settlement.rs) leave the insurance fund alone.
use xelma_blockchain.Prelude.{
  ℕ, ◌≡◌, refl, ◌∙◌, Bool-cases, inl, inr, Option, none, some, List, [], ◌∷◌, if◌then◌else◌,
}
use xelma_blockchain.Int.{ℤ, pos, ltb_ℤ}
use xelma_blockchain.Machine.{checked_add}
use xelma_blockchain.Errors.{ok, Ensures, Ensures-ok, Ensures-bind, Ensures-ok_or, Ensures-if}
use xelma_blockchain.SettlementMath.Common.{payout_add}
use xelma_blockchain.Contract.State.{
  is_some, Env, Storage, RoundMode, up_down, precision, UserPosition, UserRoundOutcome,
}
use xelma_blockchain.Contract.Balances.{pending_of, exceeds_cap, _accumulate_pending}
use xelma_blockchain.Contract.CashOut.{_persist_user_outcome}
use xelma_blockchain.Contract.PrecisionResolution.{staked_amount}
use xelma_blockchain.Contract.Cancellation.{
  cancel_position, cancel_stake, cancel_participant, add_stake, cancel_participants,
}

abbrev pub SameFund : Storage → Storage → Type 0
SameFund s s' = s'.funds.insurance_fund ≡ s.funds.insurance_fund

accumulate-SameFund :
    (env : Env) (user : ℕ) (amount : ℤ) (s : Storage)
    → Ensures (SameFund s) (_accumulate_pending env user amount s)
unfolding _accumulate_pending payout_add
accumulate-SameFund env user amount s =
    Ensures-ok_or _ (checked_add (pending_of s user) amount) _ _
      (λ b e. Ensures-if _ (exceeds_cap b s.config.max_pending_winnings) _ _ (λ h. tt) (λ h. refl))

outcome-SameFund :
    (round_id : ℕ) (o : UserRoundOutcome) (s : Storage)
    → SameFund s (_persist_user_outcome round_id o s)
unfolding _persist_user_outcome
outcome-SameFund round_id o s =
    elim (Bool-cases (is_some (s.rounds.user_round_outcome round_id o.user))) [
      | inl there ↦ rw there refl
      | inr absent ↦ rw absent refl
    ]

module _ (env : Env) (round_id : ℕ) where
  cancel_position-SameFund :
      (user : ℕ) (o : Option UserPosition) (s : Storage)
      → Ensures (λ (noted, s'). SameFund s s') (cancel_position env round_id user o s)
  unfolding cancel_position
  cancel_position-SameFund user none s = refl
  cancel_position-SameFund user (some p) s =
      Ensures-bind _ (_accumulate_pending env user p.amount s) _ (λ s' e.
        outcome-SameFund round_id _ s' ∙ Ensures-ok _ _ (accumulate-SameFund env user p.amount s) e)

  cancel_stake-SameFund :
      (user : ℕ) (amount : ℤ) (s : Storage)
      → Ensures (λ (noted, s'). SameFund s s') (cancel_stake env round_id user amount s)
  unfolding cancel_stake
  cancel_stake-SameFund user amount s =
      let paid =
        Ensures-if (SameFund s) (ltb_ℤ (pos 0) amount) (_accumulate_pending env user amount s)
          (ok s) (λ h. accumulate-SameFund env user amount s) (λ h. refl) in
      Ensures-bind _ (if ltb_ℤ (pos 0) amount then _accumulate_pending env user amount s else ok s)
        _ (λ s' e. outcome-SameFund round_id _ s' ∙ Ensures-ok _ _ paid e)

  cancel_participant-SameFund :
      (mode : RoundMode) (user : ℕ) (s : Storage)
      → Ensures (λ (noted, s'). SameFund s s') (cancel_participant env round_id mode user s)
  unfolding cancel_participant
  cancel_participant-SameFund up_down user s =
      cancel_position-SameFund user (s.rounds.position round_id user) s
  cancel_participant-SameFund precision user s =
      cancel_stake-SameFund user
        (staked_amount (s.rounds.precision_position round_id user)
          (s.rounds.precision_commitment round_id user))
        s

  pub cancel_participants-SameFund :
      (mode : RoundMode) (users : List ℕ) (total : ℤ) (s : Storage)
      → Ensures (λ (noted, s'). SameFund s s') (cancel_participants env round_id mode users total s)
  unfolding cancel_participants
  cancel_participants-SameFund mode [] total s = refl
  cancel_participants-SameFund mode (user ∷ users) total s =
      Ensures-bind _ (cancel_participant env round_id mode user s) _ (λ (o, s1) e.
        Ensures-bind _ (cancel_participants env round_id mode users (add_stake o total) s1) _
          (λ ((stakes, t), s2) e2.
            Ensures-ok _ _ (cancel_participants-SameFund mode users (add_stake o total) s1) e2
            ∙ Ensures-ok _ _ (cancel_participant-SameFund mode user s) e))
