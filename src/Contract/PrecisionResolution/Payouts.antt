-- ===== src/Contract/PrecisionResolution/Payouts.antt =====
-- `_calculate_precision_payouts` of contracts/src/settlement.rs shares out exactly the pool.
use xelma_blockchain.Prelude.{
  ℕ, zero, suc, ◌≡◌, ◌≢◌, refl, sym, ap, ◌∙◌, List, [], ◌∷◌, map, length, replicate, length-map,
  length-replicate,
}
use xelma_blockchain.Int.{ℤ, pos, ◌+ℤ◌, ◌-ℤ◌, ltb_ℤ, int_laws}
use xelma_blockchain.Machine.{checked_add, checked_sub, quot}
use xelma_blockchain.Machine.Laws.{checked_add-eq-some, checked_sub-eq-some}
use xelma_blockchain.Errors.{
  ok, Ensures, Ensures-ok, Ensures-bind, Ensures-ok_or, Ensures-if, Ensures-weaken,
}
use xelma_blockchain.SettlementMath.Common.{payout_add}
use xelma_blockchain.SettlementMath.Pot.{sum_stakes, weighted_shares}
use xelma_blockchain.SettlementMath.Pot.Weighted.{total, share, weighted_shares-Ensures}
use xelma_blockchain.SettlementMath.Precision.{PrecisionPayoutPolicy, equal, stake_weighted}
use xelma_blockchain.Contract.State.{PrecisionPrediction}
use xelma_blockchain.Contract.PrecisionResolution.{
  equal_payouts, payouts_by_policy, add_remainder, _calculate_precision_payouts,
}

-- Payouts for `n` winners, with the total that was kept of them.
abbrev Tallied : ℕ → ℤ → List ℤ × ℤ → Type 0
Tallied n paid (payouts, final) = (final ≡ paid +ℤ total payouts) × (length payouts ≡ n)

move : (acc p t : ℤ) → acc +ℤ p +ℤ t ≡ acc +ℤ (p +ℤ t)
move acc p t = omega int_laws

add_zero : (acc : ℤ) → acc ≡ acc +ℤ pos 0
add_zero acc = omega int_laws

equal_payouts-Tallied : (per paid : ℤ) (n : ℕ) → Ensures (Tallied n paid) (equal_payouts per paid n)
unfolding equal_payouts payout_add
equal_payouts-Tallied per paid zero = (add_zero paid, refl)
equal_payouts-Tallied per paid (suc n) =
    Ensures-ok_or (Tallied (suc n) paid) (checked_add paid per) _ _ (λ paid' e.
      Ensures-bind (Tallied (suc n) paid) (equal_payouts per paid' n) _ (λ (payouts, final) e'.
        let (sums, counts) = Ensures-ok _ _ (equal_payouts-Tallied per paid' n) e' in
        (
          sums
              ∙ (ap (λ x. x +ℤ total payouts) (checked_add-eq-some paid per e)
                  ∙ move paid per (total payouts)),
          ap suc counts,
        )))

total-zeros : (n : ℕ) → total (replicate n (pos 0)) ≡ pos 0
total-zeros zero = refl
total-zeros (suc n) = rw (total-zeros n) (omega int_laws)

weighted_shares-Tallied :
    (pool t : ℤ) (winners : List PrecisionPrediction)
    → Ensures
        (Tallied (length winners) (pos 0))
        (weighted_shares pool t (pos 0) (map (λ w. w.amount) winners))
weighted_shares-Tallied pool t winners =
    let stakes = map (λ w. w.amount) winners in
    Ensures-weaken (weighted_shares pool t (pos 0) stakes)
      (λ (payouts, final) (are, sums). (
        sums ∙ ap (λ ps. pos 0 +ℤ total ps) (sym are),
        ap length are ∙ (length-map stakes (share pool t) ∙ length-map winners (λ w. w.amount)),
      ))
      (weighted_shares-Ensures pool t (pos 0) stakes)

payouts_by_policy-Tallied :
    (policy : PrecisionPayoutPolicy) (winners : List PrecisionPrediction) (pool : ℤ)
    → Ensures (Tallied (length winners) (pos 0)) (payouts_by_policy policy winners pool)
unfolding payouts_by_policy
payouts_by_policy-Tallied equal [] pool = (add_zero (pos 0), refl)
payouts_by_policy-Tallied equal (w ∷ ws) pool =
    equal_payouts-Tallied (quot pool (suc (length ws))) (pos 0) (suc (length ws))
payouts_by_policy-Tallied stake_weighted winners pool =
    Ensures-bind _ (sum_stakes (pos 0) (map (λ w. w.amount) winners)) _ (λ t e.
      Ensures-if _ (ltb_ℤ (pos 0) t) _ _ (λ h. weighted_shares-Tallied pool t winners)
        (λ h. (
          add_zero (pos 0) ∙ ap (λ x. pos 0 +ℤ x) (sym (total-zeros (length winners))),
          length-replicate (length winners) (pos 0),
        )))

shift : (p r t : ℤ) → p +ℤ r +ℤ t ≡ r +ℤ (p +ℤ t)
shift p r t = omega int_laws

add_remainder-Ensures :
    (rest : ℤ) (payouts : List ℤ)
    → payouts ≢ []
    → Ensures
        (λ ps. (total ps ≡ rest +ℤ total payouts) × (length ps ≡ length payouts))
        (add_remainder rest payouts)
unfolding add_remainder payout_add
add_remainder-Ensures rest [] ne = absurd (ne refl)
add_remainder-Ensures rest (p ∷ ps) ne = Ensures-ok_or _ (checked_add p rest) _ _ (λ p' e.
    (ap (λ x. x +ℤ total ps) (checked_add-eq-some p rest e) ∙ shift p rest (total ps), refl))

length-empty {ℓ} : {A : Type ℓ} (xs : List A) (n : ℕ) → length xs ≡ suc n → xs ≢ []
length-empty [] n h = λ e. cc
length-empty (x ∷ xs) n h = λ e. cc

give_back : (d x : ℤ) → (d -ℤ (pos 0 +ℤ x)) +ℤ x ≡ d
give_back d x = omega int_laws

pub payouts-Ensures :
    (policy : PrecisionPayoutPolicy) (w : PrecisionPrediction) (ws : List PrecisionPrediction)
    (pool : ℤ)
    → Ensures
        (λ ps. (total ps ≡ pool) × (length ps ≡ length (w ∷ ws)))
        (_calculate_precision_payouts policy (w ∷ ws) pool)
unfolding _calculate_precision_payouts
payouts-Ensures policy w ws pool =
    Ensures-bind _ (payouts_by_policy policy (w ∷ ws) pool) _ (λ (payouts, paid) e.
      let (sums, counts) = Ensures-ok _ _ (payouts_by_policy-Tallied policy (w ∷ ws) pool) e in
      Ensures-ok_or _ (checked_sub pool paid) _ _ (λ rest e'.
        Ensures-weaken (add_remainder rest payouts)
          (λ ps (adds, keeps). (
            adds
                ∙ (ap (λ x. x +ℤ total payouts)
                      (checked_sub-eq-some pool paid e' ∙ ap (λ x. pool -ℤ x) sums)
                    ∙ give_back pool (total payouts)),
            keeps ∙ counts,
          ))
          (add_remainder-Ensures rest payouts (length-empty payouts (length ws) counts))))

-- With at least one winner, under either policy and whatever the stakes and the pool are, if the payouts of a
-- precision round are computed, there is one for each winner and they add up to exactly the pool.
pub _calculate_precision_payouts-total :
    (policy : PrecisionPayoutPolicy) (winners : List PrecisionPrediction) (pool : ℤ)
    {payouts : List ℤ}
    → winners ≢ []
    → _calculate_precision_payouts policy winners pool ≡ ok payouts
    → (total payouts ≡ pool) × (length payouts ≡ length winners)
_calculate_precision_payouts-total policy [] pool ne h = absurd (ne refl)
_calculate_precision_payouts-total policy (w ∷ ws) pool ne h =
    Ensures-ok _ _ (payouts-Ensures policy w ws pool) h
