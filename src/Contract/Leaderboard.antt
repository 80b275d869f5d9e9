-- ===== src/Contract/Leaderboard.antt =====
-- Statistics and leaderboards: contracts/src/leaderboard.rs, and the two updates of
-- contracts/src/settlement.rs that a settlement makes.
pub mod Ranking
pub mod Season
use xelma_blockchain.Prelude.{
  ℕ, ◌+◌, Bool, ◌&&◌, ◌||◌, Option, some, List, [], ◌∷◌, ◌++◌, take, ltb, ◌==◌, if◌then◌else◌,
}
use xelma_blockchain.Machine.{checked_u, u32_mod}
use xelma_blockchain.Errors.{Result, ok, ok_or, ◌>>=◌, overflow}
use xelma_blockchain.Contract.State.{put, put_in_round, unwrap_or, Storage, Rankings, UserStats}
use xelma_blockchain.Contract.CashOut.{without}

abbrev pub no_stats : UserStats
no_stats = record { total_wins = 0; total_losses = 0; current_streak = 0; best_streak = 0 }

unfoldable pub lifetime_user_stats : Rankings → ℕ → UserStats
lifetime_user_stats r user = unwrap_or (r.user_stats user) no_stats

unfoldable pub season_user_stats_raw : Rankings → ℕ → ℕ → UserStats
season_user_stats_raw r season_id user = unwrap_or (r.season_user_stats season_id user) no_stats

-- An address comes before another: the larger metric first, then the smaller address.
unfoldable pub outranks : (ℕ → ℕ) → ℕ → ℕ → Bool
outranks metric addr other =
    ltb (metric other) (metric addr) || metric addr == metric other && ltb addr other

-- The inner loop: before the first address that it outranks, or at the end.
unfoldable pub insert_ranked : (ℕ → ℕ) → ℕ → List ℕ → List ℕ
insert_ranked metric addr [] = addr ∷ []
insert_ranked metric addr (other ∷ sorted) =
    let rest = insert_ranked metric addr sorted in
    if outranks metric addr other then addr ∷ other ∷ sorted else other ∷ rest

unfoldable pub reinsert_sorted : (ℕ → ℕ) → List ℕ → List ℕ → List ℕ
reinsert_sorted metric sorted [] = sorted
reinsert_sorted metric sorted (addr ∷ addresses) =
    reinsert_sorted metric (insert_ranked metric addr sorted) addresses

abbrev pub leaderboard_limit : ℕ
leaderboard_limit = 100

-- One bounded index after the user's statistics have changed.
unfoldable pub updated_index : (ℕ → ℕ) → Option (List ℕ) → ℕ → Option (List ℕ)
updated_index metric index user = some (
    take leaderboard_limit
      (reinsert_sorted metric [] (without user (unwrap_or index []) ++ user ∷ [])))

unfoldable pub _update_leaderboards : ℕ → Rankings → Rankings
_update_leaderboards user r = record r {
  leaderboard_wins =
      updated_index (λ a. (lifetime_user_stats r a).total_wins) r.leaderboard_wins user;
  leaderboard_streak =
      updated_index (λ a. (lifetime_user_stats r a).best_streak) r.leaderboard_streak user;
}

unfoldable pub _current_season_id : Rankings → ℕ
_current_season_id r = unwrap_or r.season_id 1

unfoldable pub _update_season_leaderboards : ℕ → ℕ → Rankings → Rankings
_update_season_leaderboards season_id user r = record r {
  season_leaderboard_wins =
      updated_index (λ a. (season_user_stats_raw r season_id a).total_wins)
        r.season_leaderboard_wins user;
  season_leaderboard_streak =
      updated_index (λ a. (season_user_stats_raw r season_id a).best_streak)
        r.season_leaderboard_streak user;
}

unfoldable pub won : UserStats → Result UserStats
won stats = do
  total_wins ← ok_or (checked_u u32_mod (stats.total_wins + 1)) overflow
  current_streak ← ok_or (checked_u u32_mod (stats.current_streak + 1)) overflow
  ok (record stats {
    total_wins = total_wins;
    current_streak = current_streak;
    best_streak =
        if ltb stats.best_streak current_streak then current_streak else stats.best_streak;
  })

unfoldable pub lost : UserStats → Result UserStats
lost stats = do
  total_losses ← ok_or (checked_u u32_mod (stats.total_losses + 1)) overflow
  ok (record stats { total_losses = total_losses; current_streak = 0 })

-- The season's part of an update, with what the result does to the statistics.
unfoldable pub update_season : (UserStats → Result UserStats) → ℕ → Rankings → Result Rankings
update_season change user r = do
  let season_id = _current_season_id r
  stats ← change (season_user_stats_raw r season_id user)
  ok (
      _update_season_leaderboards season_id user
        (record r { season_user_stats = put_in_round r.season_user_stats season_id user stats }))

unfoldable pub _update_season_stats_win : ℕ → Rankings → Result Rankings
_update_season_stats_win user r = update_season won user r

unfoldable pub _update_season_stats_loss : ℕ → Rankings → Result Rankings
_update_season_stats_loss user r = update_season lost user r

abbrev pub with_rankings : Storage → Rankings → Storage
with_rankings s rankings = record s { rankings = rankings }

unfoldable pub _update_stats_win : ℕ → Storage → Result Storage
_update_stats_win user s = do
  stats ← won (lifetime_user_stats s.rankings user)
  let r =
      _update_leaderboards user
        (record s.rankings { user_stats = put s.rankings.user_stats user stats })
  r' ← _update_season_stats_win user r
  ok (with_rankings s r')

unfoldable pub _update_stats_loss : ℕ → Storage → Result Storage
_update_stats_loss user s = do
  stats ← lost (lifetime_user_stats s.rankings user)
  let r =
      _update_leaderboards user
        (record s.rankings { user_stats = put s.rankings.user_stats user stats })
  r' ← _update_season_stats_loss user r
  ok (with_rankings s r')
