-- ===== src/Contract/Settlement/Winnings.antt =====
-- The loop of `_record_winnings_indexed` (contracts/src/settlement.rs) pays the winners their shares.
use xelma_blockchain.Prelude.{
  ℕ, ◌≡◌, refl, ap, subst, ◌∙◌, Bool, true, false, Option, none, some, List, [], ◌∷◌, ◌==◌,
  if◌then◌else◌,
}
use xelma_blockchain.Int.{ℤ, pos, ◌+ℤ◌, eqb_ℤ, int_laws}
use xelma_blockchain.Errors.{ok, ◌>>=◌, Ensures, Ensures-ok, Ensures-bind, Ensures-weaken}
use xelma_blockchain.SettlementMath.UpDown.{compute_updown_winner_payout}
use xelma_blockchain.SettlementMath.UpDown.Entries.{share, compute_updown_winner_payout-share}
use xelma_blockchain.Contract.State.{
  unwrap_or, Env, Storage, BetSide, side_is, UserPosition, win, loss,
}
use xelma_blockchain.Contract.Balances.{balance, pending_of, _accumulate_pending}
use xelma_blockchain.Contract.Fees.{get_insurance_fund_balance}
use xelma_blockchain.Contract.Fees.Collection.{treasury_amount}
use xelma_blockchain.Contract.CashOut.{_persist_user_outcome}
use xelma_blockchain.Contract.CashOut.Payments.{Accumulated, _accumulate_pending-Accumulated}
use xelma_blockchain.Contract.Leaderboard.{
  won, lost, lifetime_user_stats, _update_season_stats_win, _update_season_stats_loss,
  _update_stats_win, _update_stats_loss,
}
use xelma_blockchain.Contract.Settlement.{result_outcome, settle_participant, settle_participants}
use xelma_blockchain.Contract.Settlement.Payments.{
  due, Paid, nothing-Paid, recorded-Paid, then-Paid, none-Paid,
}

-- What a position wins: its share of the total if it is on the winning side.
abbrev pub award : BetSide → ℤ → ℤ → Option UserPosition → ℤ
award side winning_pool total none = pos 0
award side winning_pool total (some p) =
    if side_is p.side side then share winning_pool total p.amount else pos 0

-- Statistics are all that changes.
abbrev pub SameMoney : Storage → Storage → Type 0
SameMoney s s' = (s'.funds ≡ s.funds) × (s'.rounds ≡ s.rounds)

pub _update_stats_win-SameMoney :
    (user : ℕ) (s : Storage) → Ensures (SameMoney s) (_update_stats_win user s)
unfolding _update_stats_win
_update_stats_win-SameMoney user s =
    Ensures-bind _ (won (lifetime_user_stats s.rankings user)) _
      (λ stats e. Ensures-bind _ (_update_season_stats_win user _) _ (λ r e'. (refl, refl)))

pub _update_stats_loss-SameMoney :
    (user : ℕ) (s : Storage) → Ensures (SameMoney s) (_update_stats_loss user s)
unfolding _update_stats_loss
_update_stats_loss-SameMoney user s =
    Ensures-bind _ (lost (lifetime_user_stats s.rankings user)) _
      (λ stats e. Ensures-bind _ (_update_season_stats_loss user _) _ (λ r e'. (refl, refl)))

-- Statistics do not disturb a payment.
pub counted-Accumulated :
    (user : ℕ) (amount : ℤ) (s s1 s2 : Storage)
    → Accumulated user amount s s1
    → SameMoney s1 s2
    → Accumulated user amount s s2
unfolding pending_of balance get_insurance_fund_balance
counted-Accumulated user amount s s1 s2 a (f, r) = record {
  adds = ap (λ g. unwrap_or (g.pending_winnings user) (pos 0)) f ∙ a.adds;
  keeps_pending =
      λ v ne. ap (λ g. unwrap_or (g.pending_winnings v) (pos 0)) f ∙ a.keeps_pending v ne;
  keeps_balances = λ v. ap (λ g. unwrap_or (g.balance v) (pos 0)) f ∙ a.keeps_balances v;
  keeps_protocol =
      ap (λ g. treasury_amount g.protocol_fee_treasury +ℤ unwrap_or g.insurance_fund (pos 0)) f
      ∙ a.keeps_protocol;
  keeps_rounds = r ∙ a.keeps_rounds;
}

add_zero : (a : ℤ) → a ≡ a +ℤ pos 0
add_zero a = omega int_laws

pub nothing-Accumulated : (user : ℕ) (s : Storage) → Accumulated user (pos 0) s s
nothing-Accumulated user s = record {
  adds = add_zero (pending_of s user);
  keeps_pending = λ v ne. refl;
  keeps_balances = λ v. refl;
  keeps_protocol = refl;
  keeps_rounds = refl;
}

module _ (env : Env) (round_id : ℕ) (side : BetSide) (w t : ℤ) (nz : eqb_ℤ w (pos 0) ≡ false) where
  winner-Settled :
      (user : ℕ) (p : UserPosition) (s : Storage)
      → Ensures (Paid (λ v. if user == v then share w t p.amount else pos 0) s) (do
        payout ← compute_updown_winner_payout p.amount w t
        s1 ← _accumulate_pending env user payout s
        s2 ← _update_stats_win user s1
        ok (_persist_user_outcome round_id (result_outcome user p payout win) s2))
  winner-Settled user p s =
      Ensures-bind _ (compute_updown_winner_payout p.amount w t) _ (λ payout e.
        Ensures-bind _ (_accumulate_pending env user payout s) _ (λ s1 e1.
          Ensures-bind _ (_update_stats_win user s1) _ (λ s2 e2.
            recorded-Paid user round_id (share w t p.amount) (result_outcome user p payout win) s s2
              (counted-Accumulated user (share w t p.amount) s s1 s2
                (subst (λ x. Accumulated user x s s1)
                  (Ensures-ok _ _ (compute_updown_winner_payout-share p.amount w t nz) e)
                  (Ensures-ok _ _ (_accumulate_pending-Accumulated env user payout s) e1))
                (Ensures-ok _ _ (_update_stats_win-SameMoney user s1) e2)))))

  loser-Settled :
      (user : ℕ) (p : UserPosition) (s : Storage)
      → Ensures (Paid (λ v. if user == v then pos 0 else pos 0) s) (do
        s1 ← _update_stats_loss user s
        ok (_persist_user_outcome round_id (result_outcome user p (pos 0) loss) s1))
  loser-Settled user p s = Ensures-bind _ (_update_stats_loss user s) _ (λ s1 e.
      recorded-Paid user round_id (pos 0) (result_outcome user p (pos 0) loss) s s1 (
        counted-Accumulated user (pos 0) s s s1 (nothing-Accumulated user s)
          (Ensures-ok _ _ (_update_stats_loss-SameMoney user s) e)))

  settle_participant-Paid :
      (user : ℕ) (o : Option UserPosition) (s : Storage)
      → Ensures
          (Paid (λ v. if user == v then award side w t o else pos 0) s)
          (settle_participant env round_id side w t user o s)
  unfolding settle_participant
  settle_participant-Paid user none s = nothing-Paid user s
  settle_participant-Paid user (some p) s = by_side (side_is p.side side)
    where
      by_side :
          (b : Bool)
          → Ensures
              (Paid (λ v. if user == v then (if b then share w t p.amount else pos 0) else pos 0) s)
              (if b
                then (do
                  payout ← compute_updown_winner_payout p.amount w t
                  s1 ← _accumulate_pending env user payout s
                  s2 ← _update_stats_win user s1
                  ok (_persist_user_outcome round_id (result_outcome user p payout win) s2))
                else (do
                  s1 ← _update_stats_loss user s
                  ok (_persist_user_outcome round_id (result_outcome user p (pos 0) loss) s1)))
      by_side true = winner-Settled user p s
      by_side false = loser-Settled user p s

  pub settle_participants-Paid :
      (users : List ℕ) (s : Storage)
      → Ensures
          (Paid (due (award side w t) (s.rounds.position round_id) users) s)
          (settle_participants env round_id side w t users s)
  unfolding settle_participants
  settle_participants-Paid [] s = none-Paid (award side w t) (s.rounds.position round_id) s
  settle_participants-Paid (user ∷ users) s =
      Ensures-bind _
        (settle_participant env round_id side w t user (s.rounds.position round_id user) s) _
        (λ s1 e.
          Ensures-weaken (settle_participants env round_id side w t users s1)
            (λ s2 b.
              then-Paid (award side w t) round_id user users s s1 s2
                (Ensures-ok _ _ (settle_participant-Paid user (s.rounds.position round_id user) s)
                  e)
                b)
            (settle_participants-Paid users s1))
