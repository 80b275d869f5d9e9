-- ===== src/Machine/Laws.antt =====
-- The checked and saturating operations: what a result says of its operands, and when there is one.
use xelma_blockchain.Prelude.{ℕ, ◌+◌, ◌-◌, ◌*◌, ◌/◌, ◌≤◌, ◌<◌, ◌≡◌, some, arith}
use xelma_blockchain.Int.{ℤ, pos, ◌+ℤ◌, ◌-ℤ◌, ◌*ℤ◌}
use xelma_blockchain.Machine.{
  i128_half, checked_i128, checked_add, checked_sub, checked_mul, checked_div, quot_ℤ,
}

div-le : (a b : ℕ) → a / b ≤ a
div-le a b = grind arith

checked_i128-eq-some : (a : ℤ) {c : ℤ} → checked_i128 a ≡ some c → c ≡ a
unfolding checked_i128
checked_i128-eq-some (pos n) h = ground arith
checked_i128-eq-some a h = ground arith

pub checked_add-eq-some : (a b : ℤ) {c : ℤ} → checked_add a b ≡ some c → c ≡ a +ℤ b
unfolding checked_add
checked_add-eq-some a b h = checked_i128-eq-some (a +ℤ b) h

pub checked_sub-eq-some : (a b : ℤ) {c : ℤ} → checked_sub a b ≡ some c → c ≡ a -ℤ b
unfolding checked_sub
checked_sub-eq-some a b h = checked_i128-eq-some (a -ℤ b) h

pub checked_mul-eq-some : (a b : ℤ) {c : ℤ} → checked_mul a b ≡ some c → c ≡ a *ℤ b
unfolding checked_mul
checked_mul-eq-some a b h = checked_i128-eq-some (a *ℤ b) h

pub checked_add_fits :
    (a b : ℕ) → a + b < i128_half → checked_add (pos a) (pos b) ≡ some (pos (a + b))
unfolding checked_add ◌+ℤ◌
checked_add_fits a b h = ground arith

pub checked_sub_fits :
    (a b : ℕ) → b ≤ a → a < i128_half → checked_sub (pos a) (pos b) ≡ some (pos (a - b))
unfolding checked_sub ◌-ℤ◌
checked_sub_fits a b h k = ground arith

pub checked_mul_fits :
    (a b : ℕ) → a * b < i128_half → checked_mul (pos a) (pos b) ≡ some (pos (a * b))
unfolding checked_mul ◌*ℤ◌
checked_mul_fits a b h = ground arith

pub checked_div-eq-some : (a b : ℤ) {c : ℤ} → checked_div a b ≡ some c → c ≡ quot_ℤ a b
unfolding checked_div
checked_div-eq-some a b h = grind (arith, checked_i128-eq-some)

pub checked_div_fits :
    (a b : ℕ) → 0 < b → a < i128_half → checked_div (pos a) (pos b) ≡ some (pos (a / b))
unfolding checked_div
checked_div_fits a b h k = grind (arith, div-le a b)
