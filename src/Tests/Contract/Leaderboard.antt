-- ===== src/Tests/Contract/Leaderboard.antt =====
-- A bounded index of contracts/src/leaderboard.rs with three addresses.
use xelma_blockchain.Prelude.{ℕ, ◌≡◌, refl, ◌==◌, if◌then◌else◌, some, List, [], ◌∷◌}
use xelma_blockchain.Contract.Leaderboard.{reinsert_sorted, updated_index}
use xelma_blockchain.Contract.Leaderboard.Ranking.{Updated, updated_index-Updated}

-- Addresses 4 and 6 have three wins, the others one.
abbrev some_wins : ℕ → ℕ
some_wins a = if a == 4 then 3 else if a == 6 then 3 else 1

index_with_six : updated_index some_wins (some (4 ∷ 1 ∷ 6 ∷ [])) 6 ≡ some (4 ∷ 6 ∷ 1 ∷ [])
unfolding updated_index reinsert_sorted xelma_blockchain.Contract.CashOut.without
    xelma_blockchain.Contract.Leaderboard.insert_ranked
    xelma_blockchain.Contract.Leaderboard.outranks
index_with_six = refl

updated_index-Updated_example :
    (ranking : List ℕ) × Updated some_wins
      (4 ∷ 1 ∷ 6 ∷ [])
      6
      ranking
      (updated_index some_wins (some (4 ∷ 1 ∷ 6 ∷ [])) 6)
updated_index-Updated_example = updated_index-Updated some_wins (some (4 ∷ 1 ∷ 6 ∷ [])) 6
