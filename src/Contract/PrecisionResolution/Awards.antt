-- ===== src/Contract/PrecisionResolution/Awards.antt =====
-- What the loops of `_resolve_precision_mode` (contracts/src/settlement.rs) pay the winners, and the
-- participants of a round in which nobody has revealed.
use xelma_blockchain.Prelude.{
  ℕ, ◌≡◌, refl, sym, ap, ◌∙◌, false, List, [], ◌∷◌, arith, ◌==◌, if◌then◌else◌,
}
use xelma_blockchain.Int.{ℤ, pos, ◌+ℤ◌, ltb_ℤ, int_laws}
use xelma_blockchain.Errors.{Ensures, Ensures-ok, Ensures-bind, Ensures-if, Ensures-weaken}
use xelma_blockchain.Contract.State.{Env, Storage, PrecisionPrediction, win, loss, refund}
use xelma_blockchain.Contract.Balances.{pending_of, _accumulate_pending}
use xelma_blockchain.Contract.CashOut.Payments.{Accumulated, _accumulate_pending-Accumulated}
use xelma_blockchain.Contract.Leaderboard.{_update_stats_win, _update_stats_loss}
use xelma_blockchain.Contract.Settlement.Payments.{Paid, recorded-Paid}
use xelma_blockchain.Contract.Settlement.Winnings.{
  counted-Accumulated, nothing-Accumulated, _update_stats_win-SameMoney,
  _update_stats_loss-SameMoney,
}
use xelma_blockchain.Contract.PrecisionResolution.{
  ParticipantRow, precision_outcome, credit_winner, pay_winner, pay_winners, record_loss,
  record_losses, refund_unrevealed, refund_all_unrevealed,
}

abbrev pub to_user : ℕ → ℤ → ℕ → ℤ
to_user user amount v = if user == v then amount else pos 0

-- What the winners' payouts come to for a user; payouts that are missing are 0.
abbrev pub won_by : List PrecisionPrediction → List ℤ → ℕ → ℤ
won_by [] payouts v = pos 0
won_by (w ∷ ws) [] v = to_user w.user (pos 0) v +ℤ won_by ws [] v
won_by (w ∷ ws) (p ∷ ps) v = to_user w.user p v +ℤ won_by ws ps v

abbrev pub refundable : ℤ → ℤ
refundable stake = if ltb_ℤ (pos 0) stake then stake else pos 0

-- What the refunds of the rows come to for a user.
abbrev pub refunded_to : List ℕ → List ParticipantRow → ℕ → ℤ
refunded_to (u ∷ us) (row ∷ rows) v = to_user u (refundable row.amount) v +ℤ refunded_to us rows v
refunded_to _ _ v = pos 0

add_zero : (a : ℤ) → a ≡ a +ℤ pos 0
add_zero a = omega int_laws

pub unpaid-Paid : (s : Storage) → Paid (λ v. pos 0) s s
unpaid-Paid s = record {
  pays = λ v. add_zero (pending_of s v);
  keeps_balances = λ v. refl;
  keeps_protocol = refl;
  keeps_positions = refl;
}

regroup : (a b c : ℤ) → a +ℤ b +ℤ c ≡ a +ℤ (b +ℤ c)
regroup a b c = omega int_laws

pub both-Paid :
    (owed due : ℕ → ℤ) (s s1 s2 : Storage)
    → Paid owed s s1
    → Paid due s1 s2
    → Paid (λ v. owed v +ℤ due v) s s2
both-Paid owed due s s1 s2 a b = record {
  pays =
      λ v. b.pays v ∙ (ap (λ x. x +ℤ due v) (a.pays v) ∙ regroup (pending_of s v) (owed v) (due v));
  keeps_balances = λ v. b.keeps_balances v ∙ a.keeps_balances v;
  keeps_protocol = b.keeps_protocol ∙ a.keeps_protocol;
  keeps_positions = b.keeps_positions ∙ a.keeps_positions;
}

pub same-Paid :
    (owed due : ℕ → ℤ) (s s' : Storage)
    → ((v : ℕ) → owed v ≡ due v)
    → Paid owed s s'
    → Paid due s s'
same-Paid owed due s s' h a = record {
  pays = λ v. a.pays v ∙ ap (λ x. pending_of s v +ℤ x) (h v);
  keeps_balances = a.keeps_balances;
  keeps_protocol = a.keeps_protocol;
  keeps_positions = a.keeps_positions;
}

pay_winner-Paid :
    (env : Env) (round_id : ℕ) (winner : PrecisionPrediction) (payout : ℤ) (s : Storage)
    → Ensures (Paid (to_user winner.user payout) s) (pay_winner env round_id false winner payout s)
unfolding pay_winner credit_winner
pay_winner-Paid env round_id winner payout s =
    Ensures-bind _ (credit_winner env false winner.user payout s) _ (λ s2 e.
      recorded-Paid winner.user round_id payout
        (precision_outcome winner.user winner.predicted_price winner.amount payout win) s s2
        (Ensures-ok _ _ credited e))
  where
    credited :
        Ensures (Accumulated winner.user payout s) (credit_winner env false winner.user payout s)
    credited = Ensures-bind _ (_accumulate_pending env winner.user payout s) _ (λ s1 e.
        Ensures-weaken (_update_stats_win winner.user s1)
          (λ s2 same.
            counted-Accumulated winner.user payout s s1 s2
              (Ensures-ok _ _ (_accumulate_pending-Accumulated env winner.user payout s) e) same)
          (_update_stats_win-SameMoney winner.user s1))

pub pay_winners-Paid :
    (env : Env) (round_id : ℕ) (winners : List PrecisionPrediction) (payouts : List ℤ) (s : Storage)
    → Ensures (Paid (won_by winners payouts) s) (pay_winners env round_id false winners payouts s)
unfolding pay_winners
pay_winners-Paid env round_id [] payouts s = unpaid-Paid s
pay_winners-Paid env round_id (w ∷ ws) [] s =
    Ensures-bind _ (pay_winner env round_id false w (pos 0) s) _ (λ s1 e.
      Ensures-weaken (pay_winners env round_id false ws [] s1)
        (λ s2 b.
          both-Paid _ _ s s1 s2 (Ensures-ok _ _ (pay_winner-Paid env round_id w (pos 0) s) e) b)
        (pay_winners-Paid env round_id ws [] s1))
pay_winners-Paid env round_id (w ∷ ws) (p ∷ ps) s =
    Ensures-bind _ (pay_winner env round_id false w p s) _ (λ s1 e.
      Ensures-weaken (pay_winners env round_id false ws ps s1)
        (λ s2 b. both-Paid _ _ s s1 s2 (Ensures-ok _ _ (pay_winner-Paid env round_id w p s) e) b)
        (pay_winners-Paid env round_id ws ps s1))

pub nothing_to : (user v : ℕ) → to_user user (pos 0) v ≡ pos 0
nothing_to user v = ground arith

record_loss-Paid :
    (round_id user : ℕ) (row : ParticipantRow) (s : Storage)
    → Ensures (Paid (λ v. pos 0) s) (record_loss round_id user row s)
unfolding record_loss
record_loss-Paid round_id user row s =
    Ensures-if _ row.was_winner _ _ (λ h. unpaid-Paid s)
      (λ h. Ensures-bind _ (_update_stats_loss user s) _ (λ s1 e.
        same-Paid (to_user user (pos 0)) (λ v. pos 0) s _ (nothing_to user)
          (recorded-Paid user round_id (pos 0)
            (precision_outcome user row.price row.amount (pos 0) loss) s s1
            (counted-Accumulated user (pos 0) s s s1 (nothing-Accumulated user s)
              (Ensures-ok _ _ (_update_stats_loss-SameMoney user s) e)))))

pub record_losses-Paid :
    (round_id : ℕ) (users : List ℕ) (rows : List ParticipantRow) (s : Storage)
    → Ensures (Paid (λ v. pos 0) s) (record_losses round_id users rows s)
unfolding record_losses
record_losses-Paid round_id [] rows s = unpaid-Paid s
record_losses-Paid round_id (user ∷ users) [] s = unpaid-Paid s
record_losses-Paid round_id (user ∷ users) (row ∷ rows) s =
    Ensures-bind _ (record_loss round_id user row s) _ (λ s1 e.
      Ensures-weaken (record_losses round_id users rows s1)
        (λ s2 b.
          same-Paid (λ v. pos 0 +ℤ pos 0) (λ v. pos 0) s s2 (λ v. omega int_laws)
            (both-Paid (λ v. pos 0) (λ v. pos 0) s s1 s2
              (Ensures-ok _ _ (record_loss-Paid round_id user row s) e) b))
        (record_losses-Paid round_id users rows s1))

refund_unrevealed-Paid :
    (env : Env) (round_id user : ℕ) (stake : ℤ) (s : Storage)
    → Ensures
        (Paid (to_user user (refundable stake)) s)
        (refund_unrevealed env round_id user stake s)
unfolding refund_unrevealed
refund_unrevealed-Paid env round_id user stake s =
    Ensures-if _ (ltb_ℤ (pos 0) stake) _ _
      (λ h. rw h (
        Ensures-bind _ (_accumulate_pending env user stake s) _ (λ s1 e.
          recorded-Paid user round_id stake (precision_outcome user 0 stake stake refund) s s1
            (Ensures-ok _ _ (_accumulate_pending-Accumulated env user stake s) e))))
      (λ h. rw h (
        same-Paid (λ v. pos 0) (to_user user (pos 0)) s s (λ v. sym (nothing_to user v))
          (unpaid-Paid s)))

pub refund_all_unrevealed-Paid :
    (env : Env) (round_id : ℕ) (users : List ℕ) (rows : List ParticipantRow) (s : Storage)
    → Ensures (Paid (refunded_to users rows) s) (refund_all_unrevealed env round_id users rows s)
unfolding refund_all_unrevealed
refund_all_unrevealed-Paid env round_id [] rows s = unpaid-Paid s
refund_all_unrevealed-Paid env round_id (user ∷ users) [] s = unpaid-Paid s
refund_all_unrevealed-Paid env round_id (user ∷ users) (row ∷ rows) s =
    Ensures-bind _ (refund_unrevealed env round_id user row.amount s) _ (λ s1 e.
      Ensures-weaken (refund_all_unrevealed env round_id users rows s1)
        (λ s2 b.
          both-Paid _ _ s s1 s2
            (Ensures-ok _ _ (refund_unrevealed-Paid env round_id user row.amount s) e) b)
        (refund_all_unrevealed-Paid env round_id users rows s1))
