-- ===== src/SettlementMath/Pot/Equal.antt =====
-- `split_pot_among_winners` of contracts/src/settlement_math.rs pays out exactly the pot.
use xelma_blockchain.Prelude.{
  ℕ, zero, suc, ◌+◌, ◌*◌, ◌/◌, ◌%◌, ◌≤◌, ◌<◌, ◌≡◌, refl, ap, List, [], ◌∷◌, replicate, arith,
}
use xelma_blockchain.Int.{ℤ, pos, sum_ℤ, pos-add}
use xelma_blockchain.Machine.{i128_half}
use xelma_blockchain.Machine.Laws.{checked_add_fits}
use xelma_blockchain.Errors.{ok}
use xelma_blockchain.SettlementMath.Pot.{equal_shares, split_pot_among_winners}

-- The first winner's share, and the others'.
abbrev pub even_shares : ℕ → ℕ → List ℤ
even_shares d zero = []
even_shares d (suc n) = pos (d / suc n + d % suc n) ∷ replicate n (pos (d / suc n))

later_shares : (per rest : ℤ) (i n : ℕ) → equal_shares per rest (suc i) n ≡ ok (replicate n per)
unfolding equal_shares
later_shares per rest i zero = refl
later_shares per rest i (suc n) = ground (arith, later_shares per rest (suc i) n)

split_fits : (d n : ℕ) → d / suc n + d % suc n ≤ d
split_fits d n = grind arith

-- With at least one winner and a positive pot that fits an `i128`, the split returns one share for
-- each winner: the quotient for all, and the remainder on top for the first.
pub split_pot_among_winners_total :
    (d n : ℕ)
    → 0 < d
    → 0 < n
    → d < i128_half
    → split_pot_among_winners (pos d) n ≡ ok (even_shares d n)
unfolding split_pot_among_winners equal_shares
split_pot_among_winners_total d zero hd hn hf = absurd (omega arith)
split_pot_among_winners_total d (suc n) hd hn hf =
    grind (arith, checked_add_fits, later_shares, split_fits d n)

div_mod : (d n : ℕ) → d / suc n + d % suc n + n * (d / suc n) ≡ d
div_mod d n = grind arith

total-replicate : (n : ℕ) (a : ℕ) → sum_ℤ (λ x. x) (replicate n (pos a)) ≡ pos (n * a)
total-replicate zero a = ground arith
total-replicate (suc n) a = rw (total-replicate n a, pos-add) (ground arith)

-- Nothing of the pot is lost or made by the split.
pub even_shares-total : (d n : ℕ) → 0 < n → sum_ℤ (λ x. x) (even_shares d n) ≡ pos d
even_shares-total d zero h = absurd (omega arith)
even_shares-total d (suc n) h = rw (total-replicate n (d / suc n), pos-add) (ap pos (div_mod d n))
