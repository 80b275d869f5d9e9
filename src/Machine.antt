-- ===== src/Machine.antt =====
-- The machine integers of the program: `i128` as ℤ with its range, `u128`, `u64` and `u32` as ℕ
-- with theirs. These are the checked and saturating operations of the language.
pub mod Laws
use xelma_blockchain.Prelude.{
  ℕ, suc, ◌+◌, ◌-◌, ◌*◌, ◌/◌, ◌%◌, ◌≤◌, ◌<◌, Bool, true, false, Option, none, some, ltb, leb,
  if◌then◌else◌,
}
use xelma_blockchain.Int.{ℤ, pos, negsuc, negate, eqb_ℤ, ◌+ℤ◌, ◌-ℤ◌, ◌*ℤ◌}

-- 2 ^ 127, 2 ^ 128, 2 ^ 64 and 2 ^ 32.
abbrev pub i128_half : ℕ
i128_half = 0x8000_0000_0000_0000_0000_0000_0000_0000

abbrev pub u128_mod : ℕ
u128_mod = 0x1_0000_0000_0000_0000_0000_0000_0000_0000

abbrev pub u64_mod : ℕ
u64_mod = 0x1_0000_0000_0000_0000

abbrev pub u32_mod : ℕ
u32_mod = 0x1_0000_0000

-- -2 ^ 127 ≤ a < 2 ^ 127
unfoldable pub fits_i128 : ℤ → Bool
fits_i128 (pos n) = ltb n i128_half
fits_i128 (negsuc n) = ltb n i128_half

unfoldable pub checked_i128 : ℤ → Option ℤ
unfolding fits_i128
checked_i128 a = if fits_i128 a then some a else none

unfoldable pub checked_add : ℤ → ℤ → Option ℤ
unfolding fits_i128 checked_i128
checked_add a b = checked_i128 (a +ℤ b)

unfoldable pub checked_sub : ℤ → ℤ → Option ℤ
unfolding fits_i128 checked_i128
checked_sub a b = checked_i128 (a -ℤ b)

unfoldable pub checked_mul : ℤ → ℤ → Option ℤ
unfolding fits_i128 checked_i128
checked_mul a b = checked_i128 (a *ℤ b)

unfoldable pub saturate_i128 : ℤ → ℤ
saturate_i128 (pos n) = if ltb n i128_half then pos n else pos (i128_half - 1)
saturate_i128 (negsuc n) = if ltb n i128_half then negsuc n else negsuc (i128_half - 1)

unfoldable pub saturating_add : ℤ → ℤ → ℤ
unfolding saturate_i128
saturating_add a b = saturate_i128 (a +ℤ b)

unfoldable pub saturating_sub : ℤ → ℤ → ℤ
unfolding saturate_i128
saturating_sub a b = saturate_i128 (a -ℤ b)

-- `a / b` on `i128` rounds toward zero; here by a positive constant.
abbrev pub quot : ℤ → ℕ → ℤ
quot (pos a) b = pos (a / b)
quot (negsuc a) b = negate (suc a / b)

-- `a % b` on `i128`, by a positive number; it has the sign of `a`.
abbrev pub remainder : ℤ → ℕ → ℤ
remainder (pos a) b = pos (a % b)
remainder (negsuc a) b = negate (suc a % b)

-- Division of two `i128`, rounding toward zero.
abbrev pub quot_ℤ : ℤ → ℤ → ℤ
quot_ℤ (pos a) (pos b) = pos (a / b)
quot_ℤ (pos a) (negsuc b) = negate (a / suc b)
quot_ℤ (negsuc a) (pos b) = negate (suc a / b)
quot_ℤ (negsuc a) (negsuc b) = pos (suc a / suc b)

-- There is no quotient by zero, and -2 ^ 127 / -1 does not fit.
unfoldable pub checked_div : ℤ → ℤ → Option ℤ
unfolding checked_i128 fits_i128
checked_div a b = if eqb_ℤ b (pos 0) then none else checked_i128 (quot_ℤ a b)

unfoldable pub checked_u : ℕ → ℕ → Option ℕ
checked_u bound n = if ltb n bound then some n else none

unfoldable pub saturate_u : ℕ → ℕ → ℕ
saturate_u bound n = if ltb n bound then n else bound - 1
