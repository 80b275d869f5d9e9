-- ===== src/SettlementMath/Oracle.antt =====
-- The oracle helpers of contracts/src/settlement_math.rs: the deviation from a reference, the insertion
-- sort of the prices, their median, and the total pot of a precision round. Prices are `u128`.
pub mod Sorting
pub mod Median
use xelma_blockchain.Prelude.{
  ℕ, zero, suc, ◌+◌, ◌-◌, ◌*◌, ◌/◌, ◌%◌, Bool, true, false, Option, none, some, List, [], ◌∷◌,
  length, get_elem?, set, ltb, leb, ◌==◌, if◌then◌else◌,
}
use xelma_blockchain.Int.{ℤ, pos}
use xelma_blockchain.Machine.{checked_u, saturate_u, saturating_add, u32_mod, u128_mod}
use xelma_blockchain.Errors.{Result, ok, err, ok_or, or_panic, ◌>>=◌, ◌>>◌, overflow, invalid_price}
use xelma_blockchain.SettlementMath.Precision.{abs_diff}

-- Either branch of the difference is a `checked_sub` of the smaller price from the larger, which has a
-- value.
unfoldable pub compute_deviation_bps : ℕ → ℕ → Result ℕ
compute_deviation_bps price reference = if reference == 0 then err invalid_price else (do
  let diff = abs_diff price reference
  product ← ok_or (checked_u u128_mod (diff * 10_000)) overflow
  ok_or (checked_u u32_mod (product / reference)) overflow)

-- The while loop: `j` falls as long as the price before it is larger than the key. It starts at an index
-- of the slice, so no access is out of range; the default of a read is never used.
abbrev pub price_at : List ℕ → ℕ → ℕ
price_at prices i = elim (get_elem? prices i) [ none ↦ 0 | some p ↦ p ]

unfoldable pub shift_key : ℕ → List ℕ → ℕ → List ℕ
shift_key key prices zero = set prices 0 key
shift_key key prices (suc j) =
    let moved = shift_key key (set prices (suc j) (price_at prices j)) j in
    if ltb key (price_at prices j) then moved else set prices (suc j) key

-- `for i in 1..prices.len()`, with the rounds left.
unfoldable pub sort_from : ℕ → ℕ → List ℕ → List ℕ
sort_from zero i prices = prices
sort_from (suc rounds) i prices = sort_from rounds (suc i) (shift_key (price_at prices i) prices i)

unfoldable pub sort_prices_in_place : List ℕ → List ℕ
sort_prices_in_place prices = sort_from (length prices - 1) 1 prices

unfoldable pub median_of_sorted : List ℕ → Option ℕ
median_of_sorted prices =
    let n = length prices in
    if n == 0
    then none
    else if n % 2 == 1
    then some (price_at prices (n / 2))
    else some (saturate_u u128_mod (price_at prices (n / 2 - 1) + price_at prices (n / 2)) / 2)

-- The fold over the stakes.
unfoldable pub add_stakes : ℤ → List ℤ → ℤ
add_stakes acc [] = acc
add_stakes acc (s ∷ stakes) = add_stakes (saturating_add acc s) stakes

unfoldable pub total_pot_precision : List ℤ → ℤ
total_pot_precision stakes = add_stakes (pos 0) stakes
