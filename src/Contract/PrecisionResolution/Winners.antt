-- ===== src/Contract/PrecisionResolution/Winners.antt =====
-- The winners' branch of `_resolve_precision_mode` (contracts/src/settlement.rs), and what the call as a
-- whole pays.
use xelma_blockchain.Prelude.{
  ℕ, ◌≡◌, refl, sym, ap, ◌∙◌, false, Option, none, some, List, [], ◌∷◌, map, length, if◌then◌else◌,
}
use xelma_blockchain.Int.{ℤ, pos, ◌+ℤ◌, ◌-ℤ◌, ltb_ℤ, sum_ℤ, int_laws}
use xelma_blockchain.Errors.{Ensures, Ensures-ok, Ensures-bind}
use xelma_blockchain.SettlementMath.Pot.{sum_stakes}
use xelma_blockchain.SettlementMath.Pot.Weighted.{total}
use xelma_blockchain.Contract.State.{
  unwrap_or, Env, Storage, PrecisionPrediction, PrecisionCommitment,
}
use xelma_blockchain.Contract.Balances.{balance, pending_of, sort_addresses}
use xelma_blockchain.Contract.Betting.{participants_of}
use xelma_blockchain.Contract.Fees.{_apply_protocol_fee_precision}
use xelma_blockchain.Contract.Fees.Collection.{protocol_funds}
use xelma_blockchain.Contract.Settlement.Payments.{Paid}
use xelma_blockchain.Contract.PrecisionResolution.{
  _read_precision_payout_policy, _calculate_precision_payouts, PrecisionScan, staked_amount,
  pay_winners, record_losses, settle_precision_winners,
}
use xelma_blockchain.Contract.PrecisionResolution.Payouts.{payouts-Ensures}
use xelma_blockchain.Contract.PrecisionResolution.Fee.{
  PotCharged, _apply_protocol_fee_precision-PotCharged,
}
use xelma_blockchain.Contract.PrecisionResolution.Awards.{
  to_user, won_by, refundable, pay_winners-Paid, record_losses-Paid,
}
use xelma_blockchain.Contract.PrecisionResolution.Nearest.{revealed_by, closest, row_of, stake_in}

-- The winners have their payouts, and the protocol the fee.
pub record Rewarded (winners : List PrecisionPrediction) (payouts : List ℤ) (s : Storage) (fee : ℤ)
    (s' : Storage) : Type 0 where
  pub pays : (v : ℕ) → pending_of s' v ≡ pending_of s v +ℤ won_by winners payouts v
  pub keeps_balances : (v : ℕ) → balance s' v ≡ balance s v
  pub takes_fee : protocol_funds s' ≡ protocol_funds s +ℤ fee
  pub keeps_positions : s'.rounds.position ≡ s.rounds.position

-- The pot less the fee, shared out among the winners to the last unit.
abbrev pub Shared : List PrecisionPrediction → ℤ → Storage → ℤ × Storage → Type 0
Shared winners pot s (fee, s') =
    (payouts : List ℤ) × (total payouts ≡ pot -ℤ fee)
    × (length payouts ≡ length winners)
    × Rewarded winners payouts s fee s'

-- A user's stakes among those of the listed participants.
abbrev pub refund_due : (ℕ → ℤ) → List ℕ → ℕ → ℤ
refund_due stake users v = sum_ℤ (λ u. to_user u (refundable (stake u)) v) users

abbrev pub OfPot : (ℕ → ℤ) → List ℕ → List PrecisionPrediction → ℤ → Storage → ℤ × Storage → Type 0
OfPot stake users [] pot s (fee, s') = (fee ≡ pos 0) × Paid (refund_due stake users) s s'
OfPot stake users (w ∷ ws) pot s r = Shared (w ∷ ws) pot s r

abbrev pub Outcome :
    (ℕ → ℤ) → List ℕ → List PrecisionPrediction → ℤ → Storage → ℤ × Storage → Type 0
Outcome stake users winners pot s (fee, s') =
    if ltb_ℤ (pos 0) pot
    then OfPot stake users winners pot s (fee, s')
    else (fee ≡ pos 0) × Paid (λ v. pos 0) s s'

abbrev pub PrecisionSettled : ℕ → ℕ → Storage → (ℤ × ℤ) × Storage → Type 0
PrecisionSettled round_id fp s ((fee, pot), s') =
    let m = s.rounds.precision_position round_id in
    let stake = stake_in fp m (s.rounds.precision_commitment round_id) in
    let users = sort_addresses (participants_of s round_id) in
    (pot ≡ sum_ℤ stake users)
    × Outcome stake users (closest fp (revealed_by m users)) pot s (fee, s')

pub row-amount :
    (fp : ℕ) (o : Option ℕ) (pred : Option PrecisionPrediction)
    (commitment : Option PrecisionCommitment)
    → (row_of fp o pred commitment).amount ≡ staked_amount pred commitment
unfolding staked_amount
row-amount fp o none commitment = refl
row-amount fp o (some p) commitment = refl

left_over : (d fee pot : ℤ) → d +ℤ fee ≡ pot → d ≡ pot -ℤ fee
left_over d fee pot h = rw (sym h) (undone d fee)
  where
    undone : (a b : ℤ) → a ≡ a +ℤ b -ℤ b
    undone a b = omega int_laws

add_zero : (a : ℤ) → a +ℤ pos 0 ≡ a
add_zero a = omega int_laws

then-Rewarded :
    (winners : List PrecisionPrediction) (payouts : List ℤ) (pot d fee : ℤ) (s s1 s2 s3 : Storage)
    → PotCharged pot s ((d, fee), s1)
    → Paid (won_by winners payouts) s1 s2
    → Paid (λ v. pos 0) s2 s3
    → Rewarded winners payouts s fee s3
unfolding pending_of balance
then-Rewarded winners payouts pot d fee s s1 s2 s3 (adds, collected, a) paid counted = record {
  pays = λ v.
      counted.pays v
      ∙ (add_zero (pending_of s2 v)
          ∙ (paid.pays v
              ∙ ap (λ m. unwrap_or (m v) (pos 0) +ℤ won_by winners payouts v) a.same_pending));
  keeps_balances = λ v.
      counted.keeps_balances v
      ∙ (paid.keeps_balances v ∙ ap (λ m. unwrap_or (m v) (pos 0)) a.same_balances);
  takes_fee = counted.keeps_protocol ∙ (paid.keeps_protocol ∙ collected);
  keeps_positions =
      counted.keeps_positions ∙ (paid.keeps_positions ∙ ap (λ r. r.position) a.same_rounds);
}

module _ (env : Env) (round_id : ℕ) (users : List ℕ) where
  pub winners-Shared :
      (w : PrecisionPrediction) (ws : List PrecisionPrediction) (scan : PrecisionScan) (s : Storage)
      → scan.winners ≡ w ∷ ws
      → Ensures
          (Shared (w ∷ ws) scan.total_pot s)
          (settle_precision_winners env round_id false users scan s)
  unfolding settle_precision_winners
  winners-Shared w ws scan s are =
      let winners = scan.winners in
      rw are (
        Ensures-bind _ (sum_stakes (pos 0) (map (λ w. w.amount) (w ∷ ws))) _ (λ stakes e0.
          Ensures-bind _ (_apply_protocol_fee_precision scan.total_pot stakes s) _
            (λ ((d, fee), s1) e1.
              let charged =
                Ensures-ok _ _ (_apply_protocol_fee_precision-PotCharged scan.total_pot stakes s)
                  e1 in
              let policy = _read_precision_payout_policy s1 in
              Ensures-bind _ (_calculate_precision_payouts policy (w ∷ ws) d) _ (λ payouts e2.
                let (sums, counts) = Ensures-ok _ _ (payouts-Ensures policy w ws d) e2 in
                Ensures-bind _ (pay_winners env round_id false (w ∷ ws) payouts s1) _ (λ s2 e3.
                  Ensures-bind _ (record_losses round_id users scan.rows s2) _ (λ s3 e4. (
                    payouts,
                    sums ∙ left_over d fee scan.total_pot charged.0,
                    counts,
                    then-Rewarded (w ∷ ws) payouts scan.total_pot d fee s s1 s2 s3 charged
                        (Ensures-ok _ _ (pay_winners-Paid env round_id (w ∷ ws) payouts s1) e3)
                        (Ensures-ok _ _ (record_losses-Paid round_id users scan.rows s2) e4),
                  )))))))
