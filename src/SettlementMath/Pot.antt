-- ===== src/SettlementMath/Pot.antt =====
-- Splitting the distributable amount among the winners of a precision round:
-- `split_pot_among_winners` and `split_pot_stake_weighted` of contracts/src/settlement_math.rs.
-- A count is a `usize`, so `winner_count as i128` is exact.
pub mod Equal
pub mod Weighted
use xelma_blockchain.Prelude.{
  ℕ, zero, suc, Bool, true, false, ◌||◌, List, [], ◌∷◌, length, ◌==◌, if◌then◌else◌,
}
use xelma_blockchain.Int.{ℤ, pos, eqb_ℤ, leb_ℤ, ltb_ℤ}
use xelma_blockchain.Machine.{checked_add, checked_sub, checked_div, quot, remainder}
use xelma_blockchain.Errors.{Result, ok, ok_or, or_panic, ◌>>=◌, payout_overflow}
use xelma_blockchain.SettlementMath.Common.{payout_mul}

-- `for i in 0..winner_count`, with the rounds left.
unfoldable pub equal_shares : ℤ → ℤ → ℕ → ℕ → Result (List ℤ)
equal_shares per_winner rest i zero = ok []
equal_shares per_winner rest i (suc n) = do
  payout ← if i == 0 then ok_or (checked_add per_winner rest) payout_overflow else ok per_winner
  payouts ← equal_shares per_winner rest (suc i) n
  ok (payout ∷ payouts)

unfoldable pub split_pot_among_winners : ℤ → ℕ → Result (List ℤ)
split_pot_among_winners distributable winner_count =
    if winner_count == 0 || leb_ℤ distributable (pos 0)
    then ok []
    else equal_shares (quot distributable winner_count) (remainder distributable winner_count) 0
        winner_count

-- The first loop of `split_pot_stake_weighted`.
unfoldable pub sum_stakes : ℤ → List ℤ → Result ℤ
sum_stakes total_winner_stake [] = ok total_winner_stake
sum_stakes total_winner_stake (stake ∷ stakes) = do
  total ← ok_or (checked_add total_winner_stake stake) payout_overflow
  sum_stakes total stakes

-- Its second loop: the shares, and what they allocate in all.
unfoldable pub weighted_shares : ℤ → ℤ → ℤ → List ℤ → Result (List ℤ × ℤ)
unfolding payout_mul
weighted_shares distributable total_winner_stake total_allocated [] = ok ([], total_allocated)
weighted_shares distributable total_winner_stake total_allocated (stake ∷ stakes) = do
  product ← payout_mul stake distributable
  payout ← or_panic (checked_div product total_winner_stake)
  allocated ← ok_or (checked_add total_allocated payout) payout_overflow
  (payouts, final) ← weighted_shares distributable total_winner_stake allocated stakes
  ok (payout ∷ payouts, final)

-- The remainder goes to the first winner.
unfoldable pub credit_first : ℤ → List ℤ → Result (List ℤ)
credit_first rest [] = ok []
credit_first rest (payout ∷ payouts) =
    if ltb_ℤ (pos 0) rest
    then (do ok ((← ok_or (checked_add payout rest) payout_overflow) ∷ payouts))
    else ok (payout ∷ payouts)

-- The shares of a list that is not empty, once the stakes are summed.
unfoldable pub share_by_stake : ℤ → List ℤ → ℤ → Result (List ℤ)
unfolding credit_first
share_by_stake distributable winner_stakes total_winner_stake =
    if eqb_ℤ total_winner_stake (pos 0)
    then split_pot_among_winners distributable (length winner_stakes)
    else (do
      (payouts, total_allocated) ←
          weighted_shares distributable total_winner_stake (pos 0) winner_stakes
      rest ← ok_or (checked_sub distributable total_allocated) payout_overflow
      credit_first rest payouts)

abbrev pub is_empty {ℓ} : {A : Type ℓ} → List A → Bool
is_empty [] = true
is_empty (x ∷ xs) = false

unfoldable pub split_pot_stake_weighted : ℤ → List ℤ → Result (List ℤ)
unfolding share_by_stake
split_pot_stake_weighted distributable winner_stakes =
    if is_empty winner_stakes || leb_ℤ distributable (pos 0) then ok [] else (do
      total_winner_stake ← sum_stakes (pos 0) winner_stakes
      share_by_stake distributable winner_stakes total_winner_stake)
