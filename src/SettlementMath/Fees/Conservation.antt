-- ===== src/SettlementMath/Fees/Conservation.antt =====
-- What the two fee functions of contracts/src/settlement_math.rs keep.
use xelma_blockchain.Prelude.{ℕ, ◌+◌, ◌-◌, ◌*◌, ◌/◌, ◌≤◌, ◌<◌, ◌≡◌, Option, none, some, arith, min}
use xelma_blockchain.Int.{ℤ, pos, ◌+ℤ◌, ◌-ℤ◌, min_ℤ, int_laws, pos-add, pos-mul, pos-sub}
use xelma_blockchain.SettlementMath.Common.{bps_denominator}
use xelma_blockchain.Machine.{i128_half}
use xelma_blockchain.Machine.Laws.{
  checked_sub-eq-some, checked_add-eq-some, checked_mul-eq-some, checked_sub_fits, checked_add_fits,
  checked_mul_fits,
}
use xelma_blockchain.Errors.{ok, Ensures, Ensures-ok}
use xelma_blockchain.SettlementMath.Fees.{
  deduct_updown_fee, compute_updown_fee, compute_precision_fee,
}

add_zero : (w l : ℤ) → w +ℤ l +ℤ pos 0 ≡ w +ℤ l
add_zero w l = omega int_laws

-- A rate of at most 100 per cent takes at most everything.
pub fee-le : (pot bps : ℕ) → bps ≤ 10_000 → pot * bps / 10_000 ≤ pot
fee-le pot bps h = grind arith

regroup : (w l f m : ℤ) → (w -ℤ (f -ℤ m)) +ℤ (l -ℤ m) +ℤ f ≡ w +ℤ l
regroup w l f m = omega int_laws

abbrev Conserves : ℤ → ℤ → ℤ × ℤ × ℤ → Type 0
Conserves w l (dw, dl, fee) = dw +ℤ dl +ℤ fee ≡ w +ℤ l

deduct_updown_fee-Conserves : (w l f : ℤ) → Ensures (Conserves w l) (deduct_updown_fee w l f)
unfolding deduct_updown_fee
deduct_updown_fee-Conserves w l f = grind (arith, checked_sub-eq-some, regroup w l f (min_ℤ f l))

-- Whatever the signs and sizes of the pools, a fee split that returns loses and makes no stake: the
-- two post-fee pools and the fee add up to the two pools.
pub compute_updown_fee-conserves :
    (w l : ℤ) (bps : Option ℕ) {dw dl fee : ℤ}
    → compute_updown_fee w l bps ≡ ok (dw, dl, fee)
    → dw +ℤ dl +ℤ fee ≡ w +ℤ l
unfolding compute_updown_fee
compute_updown_fee-conserves w l none h = grind (arith, add_zero)
compute_updown_fee-conserves w l (some bps) h = grind (arith, deduct_updown_fee-Conserves, add_zero)

-- The fee that a rate in basis points takes from a pot; no rate takes nothing.
abbrev pub fee_of : Option ℕ → ℕ → ℕ
fee_of none pot = 0
fee_of (some bps) pot = pot * bps / bps_denominator

abbrev pub IsRate : Option ℕ → Type 0
IsRate none = Unit
IsRate (some bps) = bps ≤ bps_denominator

pub fee_of-le : (bps : Option ℕ) (pot : ℕ) → IsRate bps → fee_of bps pot ≤ pot
fee_of-le none pot h = omega arith
fee_of-le (some bps) pot h = fee-le pot bps h

-- The split of two pools: the fee comes from the losing pool first.
abbrev pub fee_split : ℕ → ℕ → ℕ → ℤ × ℤ × ℤ
fee_split w l fee = (pos (w - (fee - min fee l)), pos (l - min fee l), pos fee)

deduct_updown_fee-Ensures :
    (w l f : ℕ)
    → f ≤ w + l
    → Ensures (λ r. r ≡ fee_split w l f) (deduct_updown_fee (pos w) (pos l) (pos f))
unfolding deduct_updown_fee
deduct_updown_fee-Ensures w l f h = grind (arith, checked_sub-eq-some, pos-sub)

pub compute_updown_fee-Ensures :
    (w l : ℕ) (bps : Option ℕ)
    → IsRate bps
    → Ensures (λ r. r ≡ fee_split w l (fee_of bps (w + l))) (compute_updown_fee (pos w) (pos l) bps)
unfolding compute_updown_fee
compute_updown_fee-Ensures w l none h = ground arith
compute_updown_fee-Ensures w l (some bps) h = grind (
  arith,
  checked_add-eq-some,
  checked_mul-eq-some,
  pos-add,
  pos-mul,
  deduct_updown_fee-Ensures,
  fee-le (w + l) bps h,
)

-- Of two non-negative pools, at a rate of at most 100 per cent, a split that returns is exactly
-- `fee_split`: the fee is the rounded-down share of the pot, the losing pool pays first.
pub compute_updown_fee-fee_split :
    (w l : ℕ) (bps : Option ℕ) {r : ℤ × ℤ × ℤ}
    → IsRate bps
    → compute_updown_fee (pos w) (pos l) bps ≡ ok r
    → r ≡ fee_split w l (fee_of bps (w + l))
compute_updown_fee-fee_split w l bps h e = Ensures-ok _ _ (compute_updown_fee-Ensures w l bps h) e

deduct_updown_fee_total :
    (w l f : ℕ)
    → f ≤ w + l
    → w + l < i128_half
    → deduct_updown_fee (pos w) (pos l) (pos f)
      ≡ ok (pos (w - (f - min f l)), pos (l - min f l), pos f)
unfolding deduct_updown_fee
deduct_updown_fee_total w l f h k = grind (arith, checked_sub_fits)

-- Two non-negative pools whose taxed total fits an `i128`, at a rate of at most 100 per cent: the
-- split succeeds, the fee is the rounded-down share of the pot, and it is taken from the losing pool
-- first and from the winning pool only for what is missing there.
pub compute_updown_fee_total :
    (w l bps : ℕ)
    → bps ≤ 10_000
    → w + l < i128_half
    → (w + l) * bps < i128_half
    → compute_updown_fee (pos w) (pos l) (some bps) ≡ ok (fee_split w l (fee_of (some bps) (w + l)))
unfolding compute_updown_fee
compute_updown_fee_total w l bps hb ha hm =
    rw (checked_add_fits w l ha, checked_mul_fits (w + l) bps hm)
      (ground (arith, fee-le (w + l) bps hb, deduct_updown_fee_total w l ((w + l) * bps / 10_000)))

-- The precision fee, likewise: the distributable amount and the fee add up to the pot.
pub compute_precision_fee-conserves :
    (pot : ℤ) (bps : Option ℕ) {dist fee : ℤ}
    → compute_precision_fee pot bps ≡ ok (dist, fee)
    → dist +ℤ fee ≡ pot
unfolding compute_precision_fee
compute_precision_fee-conserves pot none h = grind int_laws
compute_precision_fee-conserves pot (some bps) h = grind (int_laws, checked_sub-eq-some)

pub compute_precision_fee_total :
    (pot bps : ℕ)
    → bps ≤ 10_000
    → pot * bps < i128_half
    → pot < i128_half
    → compute_precision_fee (pos pot) (some bps)
      ≡ ok (pos (pot - pot * bps / 10_000), pos (pot * bps / 10_000))
unfolding compute_precision_fee
compute_precision_fee_total pot bps hb hm hp =
    grind (arith, checked_mul_fits, checked_sub_fits, fee-le pot bps hb)

pub compute_precision_fee-Ensures :
    (pot : ℕ) (bps : Option ℕ)
    → IsRate bps
    → Ensures
        (λ r. r ≡ (pos (pot - fee_of bps pot), pos (fee_of bps pot)))
        (compute_precision_fee (pos pot) bps)
unfolding compute_precision_fee
compute_precision_fee-Ensures pot none h = ground arith
compute_precision_fee-Ensures pot (some bps) h =
    grind (arith, checked_mul-eq-some, checked_sub-eq-some, pos-mul, pos-sub, fee-le pot bps h)
