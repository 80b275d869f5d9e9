-- ===== src/Contract/Cancellation/Covering.antt =====
-- What `cancel_round` (contracts/src/settlement.rs) distributes of the insurance fund: at most what it takes.
use xelma_blockchain.Prelude.{
  ℕ, ◌*◌, ◌/◌, ◌+◌, ◌≤◌, ◌<◌, ◌≡◌, refl, sym, ap, List, [], ◌∷◌, arith, All, sum_by, if◌then◌else◌,
}
use xelma_blockchain.Int.{ℤ, pos, pos_part, ◌+ℤ◌, ◌*ℤ◌, ◌≤ℤ◌, ltb_ℤ, int_laws, pos-mul, nonneg-eq}
use xelma_blockchain.Machine.{checked_mul, checked_div, quot_ℤ}
use xelma_blockchain.Machine.Laws.{checked_mul-eq-some, checked_div-eq-some}
use xelma_blockchain.Errors.{
  ok, ok_or, overflow, Ensures, Ensures-ok, Ensures-bind, Ensures-ok_or, Ensures-if, Ensures-weaken,
}
use xelma_blockchain.SettlementMath.Floor.{sum_by-floor-le}
use xelma_blockchain.SettlementMath.Pot.Weighted.{total, IsStake}
use xelma_blockchain.Contract.State.{Env, Storage}
use xelma_blockchain.Contract.Balances.{_accumulate_pending}
use xelma_blockchain.Contract.CashOut.Payments.{Accumulated, _accumulate_pending-Accumulated}
use xelma_blockchain.Contract.Settlement.Payments.{Paid, Accumulated-pays}
use xelma_blockchain.Contract.Settlement.Winnings.{nothing-Accumulated}
use xelma_blockchain.Contract.PrecisionResolution.Awards.{
  to_user, refundable, both-Paid, unpaid-Paid,
}
use xelma_blockchain.Contract.Cancellation.{coverage_share, cover, distribute_coverage}

-- What amounts, one for each user of a list, come to for one user.
abbrev pub paid_to : List ℕ → List ℤ → ℕ → ℤ
paid_to (u ∷ us) (a ∷ more) v = to_user u a v +ℤ paid_to us more v
paid_to _ _ v = pos 0

abbrev coverage_of : ℤ → ℤ → ℤ → ℤ
coverage_of d t stake = if ltb_ℤ (pos 0) stake then quot_ℤ (d *ℤ stake) t else pos 0

abbrev pub coverages : ℤ → ℤ → List ℕ → List ℤ → List ℤ
coverages d t [] stakes = []
coverages d t (u ∷ us) [] = pos 0 ∷ coverages d t us []
coverages d t (u ∷ us) (a ∷ more) = refundable (coverage_of d t a) ∷ coverages d t us more

div_ensures : (a b c : ℤ) → a ≡ c → Ensures (λ q. q ≡ quot_ℤ c b) (ok_or (checked_div a b) overflow)
div_ensures a b c e = grind (arith, checked_div-eq-some)

coverage_share-of :
    (d t stake : ℤ) → Ensures (λ c. c ≡ coverage_of d t stake) (coverage_share d t stake)
unfolding coverage_share
coverage_share-of d t stake =
    Ensures-if _ (ltb_ℤ (pos 0) stake) _ _
      (λ h. rw h (
        Ensures-ok_or _ (checked_mul d stake) _ _
          (λ product e. div_ensures product t (d *ℤ stake) (checked_mul-eq-some d stake e))))
      (λ h. rw h refl)

Accumulated-Paid :
    (user : ℕ) (amount : ℤ) (s s' : Storage)
    → Accumulated user amount s s'
    → Paid (to_user user amount) s s'
Accumulated-Paid user amount s s' a = record {
  pays = λ v. Accumulated-pays user amount s s' v a;
  keeps_balances = a.keeps_balances;
  keeps_protocol = a.keeps_protocol;
  keeps_positions = ap (λ r. r.position) a.keeps_rounds;
}

module _ (env : Env) (d t : ℤ) where
  pay-Paid :
      (user : ℕ) (amount : ℤ) (s : Storage)
      → Ensures
          (Paid (to_user user (refundable amount)) s)
          (if ltb_ℤ (pos 0) amount then _accumulate_pending env user amount s else ok s)
  pay-Paid user amount s =
      Ensures-if _ (ltb_ℤ (pos 0) amount) _ _
        (λ h. rw h (
          Ensures-weaken _ (Accumulated-Paid user amount s)
            (_accumulate_pending-Accumulated env user amount s)))
        (λ h. rw h (Accumulated-Paid user (pos 0) s s (nothing-Accumulated user s)))

  cover-Paid :
      (user : ℕ) (stake : ℤ) (s : Storage)
      → Ensures
          (Paid (to_user user (refundable (coverage_of d t stake))) s)
          (cover env d t user stake s)
  unfolding cover
  cover-Paid user stake s =
      Ensures-bind _ (coverage_share d t stake) _
        (λ c e. rw (sym (Ensures-ok _ _ (coverage_share-of d t stake) e)) (pay-Paid user c s))

  pub distribute_coverage-Paid :
      (users : List ℕ) (stakes : List ℤ) (s : Storage)
      → Ensures
          (Paid (paid_to users (coverages d t users stakes)) s)
          (distribute_coverage env d t users stakes s)
  unfolding distribute_coverage
  distribute_coverage-Paid [] stakes s = unpaid-Paid s
  distribute_coverage-Paid (user ∷ users) [] s =
      Ensures-bind _ (cover env d t user (pos 0) s) _ (λ s1 e.
        Ensures-weaken (distribute_coverage env d t users [] s1)
          (λ s2 b. both-Paid _ _ s s1 s2 (Ensures-ok _ _ (cover-Paid user (pos 0) s) e) b)
          (distribute_coverage-Paid users [] s1))
  distribute_coverage-Paid (user ∷ users) (stake ∷ stakes) s =
      Ensures-bind _ (cover env d t user stake s) _ (λ s1 e.
        Ensures-weaken (distribute_coverage env d t users stakes s1)
          (λ s2 b. both-Paid _ _ s s1 s2 (Ensures-ok _ _ (cover-Paid user stake s) e) b)
          (distribute_coverage-Paid users stakes s1))

swap_mul : (d n : ℕ) → d * n ≡ n * d
swap_mul d n = ground arith

coverage-le : (d t n : ℕ) → refundable (coverage_of (pos d) (pos t) (pos n)) ≤ℤ pos (n * d / t)
coverage-le d t n = rw (pos-mul, swap_mul d n) (ground arith)

add-le : (a b : ℤ) (x y : ℕ) → a ≤ℤ pos x → b ≤ℤ pos y → (a +ℤ b) ≤ℤ pos (x + y)
add-le a b x y h k = omega int_laws

none-le : (d t : ℤ) (users : List ℕ) → total (coverages d t users []) ≤ℤ pos 0
none-le d t [] = omega arith
none-le d t (u ∷ us) =
    add-le (pos 0) (total (coverages d t us [])) 0 0 (omega arith) (none-le d t us)

floor-le :
    (d t : ℕ) (users : List ℕ) (stakes : List ℤ)
    → All IsStake stakes
    → total (coverages (pos d) (pos t) users stakes)
      ≤ℤ pos (sum_by (λ a. pos_part a * d / t) stakes)
floor-le d t [] stakes h = omega arith
floor-le d t (u ∷ us) [] h = none-le (pos d) (pos t) (u ∷ us)
floor-le d t (u ∷ us) (a ∷ more) (h, hs) = rw (nonneg-eq a h) (
    add-le (refundable (coverage_of (pos d) (pos t) (pos (pos_part a))))
      (total (coverages (pos d) (pos t) us more)) (pos_part a * d / t)
      (sum_by (λ a. pos_part a * d / t) more) (coverage-le d t (pos_part a))
      (floor-le d t us more hs))

-- The coverages of stakes that add up to at most the divisor.
pub coverages-le :
    (d t : ℕ) (users : List ℕ) (stakes : List ℤ)
    → All IsStake stakes
    → 0 < t
    → sum_by pos_part stakes ≤ t
    → total (coverages (pos d) (pos t) users stakes) ≤ℤ pos d
coverages-le d t users stakes h some_stake le =
    within (total (coverages (pos d) (pos t) users stakes)) _ d (floor-le d t users stakes h)
      (sum_by-floor-le pos_part t d stakes some_stake le)
  where
    within : (a : ℤ) (x y : ℕ) → a ≤ℤ pos x → x ≤ y → a ≤ℤ pos y
    within a x y h k = omega arith
