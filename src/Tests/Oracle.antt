-- ===== src/Tests/Oracle.antt =====
-- The oracle helpers of contracts/src/settlement_math.rs at three prices.
use xelma_blockchain.Prelude.{ℕ, ◌≡◌, List, [], ◌∷◌, count}
use xelma_blockchain.SettlementMath.Oracle.{sort_prices_in_place}
use xelma_blockchain.SettlementMath.Oracle.Sorting.{Sorted, sort_prices_in_place-Sorted}

abbrev three_prices : List ℕ
three_prices = 30 ∷ 10 ∷ 20 ∷ []

sort_prices_in_place-Sorted_example :
    Sorted (sort_prices_in_place three_prices)
    × ((price : ℕ) → count price (sort_prices_in_place three_prices) ≡ count price three_prices)
sort_prices_in_place-Sorted_example = sort_prices_in_place-Sorted three_prices
