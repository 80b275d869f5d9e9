-- ===== src/SettlementMath/Pot/Weighted.antt =====
-- `split_pot_stake_weighted` of contracts/src/settlement_math.rs pays out exactly the pot.
use xelma_blockchain.Prelude.{
  ℕ, zero, suc, ◌*◌, ◌/◌, ◌≤◌, ◌<◌, ◌≡◌, ◌≢◌, refl, sym, ap, length-map, length-replicate, List, [],
  ◌∷◌, map, length, arith, All, sum_by,
}
use xelma_blockchain.Int.{
  ℤ, pos, negsuc, pos_part, ◌+ℤ◌, ◌-ℤ◌, ◌*ℤ◌, ◌≤ℤ◌, sum_ℤ, int_laws, pos-add, pos-mul, nonneg-eq,
}
use xelma_blockchain.Machine.{i128_half, quot_ℤ}
use xelma_blockchain.Machine.Laws.{
  checked_add-eq-some, checked_sub-eq-some, checked_mul-eq-some, checked_div-eq-some,
}
use xelma_blockchain.Errors.{Ensures, Returns, Returns-Ensures}
use xelma_blockchain.SettlementMath.Floor.{sum_by-floor-le}
use xelma_blockchain.SettlementMath.Pot.Equal.{
  even_shares, split_pot_among_winners_total, even_shares-total,
}
use xelma_blockchain.SettlementMath.Pot.{
  split_pot_among_winners, sum_stakes, weighted_shares, credit_first, share_by_stake,
  split_pot_stake_weighted,
}

abbrev pub total : List ℤ → ℤ
total xs = sum_ℤ (λ x. x) xs

abbrev pub IsStake : ℤ → Type 0
IsStake s = pos 0 ≤ℤ s

shift : (p r t : ℤ) → p +ℤ r +ℤ t ≡ r +ℤ (p +ℤ t)
shift p r t = omega int_laws

move : (acc p t : ℤ) → acc +ℤ p +ℤ t ≡ acc +ℤ (p +ℤ t)
move acc p t = omega int_laws

add_zero : (acc : ℤ) → acc +ℤ pos 0 ≡ acc
add_zero acc = omega int_laws

sum_stakes-Ensures :
    (acc : ℤ) (stakes : List ℤ) → Ensures (λ s. s ≡ acc +ℤ total stakes) (sum_stakes acc stakes)
unfolding sum_stakes
sum_stakes-Ensures acc [] = sym (add_zero acc)
sum_stakes-Ensures acc (s ∷ stakes) =
    grind
      (arith, checked_add-eq-some, sum_stakes-Ensures (acc +ℤ s) stakes, move acc s (total stakes))

abbrev pub share : ℤ → ℤ → ℤ → ℤ
share d t s = quot_ℤ (s *ℤ d) t

-- Each share is the stake's proportion of the pot, and the allocated total is their sum.
pub weighted_shares-Ensures :
    (d t acc : ℤ) (stakes : List ℤ)
    → Ensures
        (λ r. (r.0 ≡ map (share d t) stakes) × (r.1 ≡ acc +ℤ total (map (share d t) stakes)))
        (weighted_shares d t acc stakes)
unfolding weighted_shares
weighted_shares-Ensures d t acc [] = (refl, sym (add_zero acc))
weighted_shares-Ensures d t acc (s ∷ stakes) = grind (
  arith,
  checked_mul-eq-some,
  checked_div-eq-some,
  checked_add-eq-some,
  weighted_shares-Ensures d t (acc +ℤ share d t s) stakes,
  move acc (share d t s) (total (map (share d t) stakes)),
)

abbrev pub Splits : ℤ → List ℤ → List ℤ → Type 0
Splits d stakes ps = (total ps ≡ d) × (length ps ≡ length stakes)

credit_first-Ensures :
    (rest : ℤ) (ps : List ℤ)
    → pos 0 ≤ℤ rest
    → ps ≢ []
    → Ensures (λ qs. (total qs ≡ rest +ℤ total ps) × (length qs ≡ length ps)) (credit_first rest ps)
unfolding credit_first
credit_first-Ensures rest [] hr ne = absurd (ne refl)
credit_first-Ensures (pos zero) (p ∷ ps) hr ne = (omega int_laws, refl)
credit_first-Ensures (negsuc n) (p ∷ ps) hr ne = absurd (omega arith)
credit_first-Ensures (pos (suc n)) (p ∷ ps) hr ne =
    grind (arith, checked_add-eq-some, shift p (pos (suc n)) (total ps))

pub total-stakes :
    (stakes : List ℤ) → All IsStake stakes → total stakes ≡ pos (sum_by pos_part stakes)
total-stakes [] h = refl
total-stakes (s ∷ stakes) h = rw (total-stakes stakes h.1, nonneg-eq s h.0, pos-add)

total-shares :
    (d t : ℕ) (stakes : List ℤ)
    → All IsStake stakes
    → total (map (share (pos d) (pos t)) stakes) ≡ pos (sum_by (λ s. pos_part s * d / t) stakes)
total-shares d t [] h = refl
total-shares d t (s ∷ stakes) h =
    rw (total-shares d t stakes h.1, nonneg-eq s h.0, pos-mul, pos-add)

zero_add : (a : ℤ) → pos 0 +ℤ a ≡ a
zero_add a = omega int_laws

give_back : (d x : ℤ) → (d -ℤ x) +ℤ x ≡ d
give_back d x = omega int_laws

rest_nonneg : (d x : ℕ) → x ≤ d → pos 0 ≤ℤ (pos d -ℤ pos x)
rest_nonneg d x h = omega int_laws

map-ne {ℓ κ} : {A : Type ℓ} {B : Type κ} (f : A → B) (xs : List A) → xs ≢ [] → map f xs ≢ []
map-ne f [] ne = absurd (ne refl)
map-ne f (x ∷ xs) ne = λ e. cc

pub length-ne {ℓ} : {A : Type ℓ} (xs : List A) → xs ≢ [] → 0 < length xs
length-ne [] ne = absurd (ne refl)
length-ne (x ∷ xs) ne = omega arith

length-even : (d n : ℕ) → length (even_shares d n) ≡ n
length-even d zero = refl
length-even d (suc n) = ap suc (length-replicate n (pos (d / suc n)))

pub even-Returns :
    (d n : ℕ)
    → 0 < n
    → 0 < d
    → d < i128_half
    → Returns (λ ps. (total ps ≡ pos d) × (length ps ≡ n)) (split_pot_among_winners (pos d) n)
even-Returns d n hn hd hf =
    rw (split_pot_among_winners_total d n hd hn hf) (even_shares-total d n hn, length-even d n)

module _ (d t : ℕ) (stakes : List ℤ) (ne : stakes ≢ []) (hs : All IsStake stakes) where
  abbrev weights : List ℤ
  weights = map (share (pos d) (pos t)) stakes

  allocated-le : 0 < t → sum_by pos_part stakes ≤ t → pos 0 ≤ℤ (pos d -ℤ total weights)
  allocated-le ht le = rw (total-shares d t stakes hs) (
      rest_nonneg d (sum_by (λ s. pos_part s * d / t) stakes)
        (sum_by-floor-le pos_part t d stakes ht le))

  credited :
      0 < t
      → sum_by pos_part stakes ≤ t
      → Ensures (Splits (pos d) stakes) (credit_first (pos d -ℤ total weights) weights)
  credited ht le = ground (
    arith,
    credit_first-Ensures (pos d -ℤ total weights) weights (allocated-le ht le)
        (map-ne (share (pos d) (pos t)) stakes ne),
    give_back (pos d) (total weights),
    length-map stakes (share (pos d) (pos t)),
  )

share_by_stake-Splits :
    (d t : ℕ) (stakes : List ℤ)
    → stakes ≢ []
    → All IsStake stakes
    → 0 < d
    → d < i128_half
    → sum_by pos_part stakes ≡ t
    → Ensures (Splits (pos d) stakes) (share_by_stake (pos d) stakes (pos t))
unfolding share_by_stake
share_by_stake-Splits d zero stakes ne hs hd hf e =
    Returns-Ensures (Splits (pos d) stakes) (split_pot_among_winners (pos d) (length stakes))
      (even-Returns d (length stakes) (length-ne stakes ne) hd hf)
share_by_stake-Splits d (suc t) stakes ne hs hd hf e = grind (
  arith,
  weighted_shares-Ensures (pos d) (pos (suc t)) (pos 0) stakes,
  zero_add (total (map (share (pos d) (pos (suc t))) stakes)),
  checked_sub-eq-some,
  credited d (suc t) stakes ne hs,
)

pub split-Ensures :
    (d : ℕ) (stakes : List ℤ)
    → stakes ≢ []
    → All IsStake stakes
    → 0 < d
    → d < i128_half
    → Ensures (Splits (pos d) stakes) (split_pot_stake_weighted (pos d) stakes)
unfolding split_pot_stake_weighted
split-Ensures d [] ne hs hd hf = absurd (ne refl)
split-Ensures d (s ∷ stakes) ne hs hd hf = grind (
  arith,
  sum_stakes-Ensures (pos 0) (s ∷ stakes),
  zero_add (total (s ∷ stakes)),
  total-stakes (s ∷ stakes) hs,
  share_by_stake-Splits d (sum_by pos_part (s ∷ stakes)) (s ∷ stakes) ne hs hd hf refl,
)
