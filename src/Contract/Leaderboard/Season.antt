-- ===== src/Contract/Leaderboard/Season.antt =====
-- The end of a season: `reset_leaderboard_season` of contracts/src/leaderboard.rs.
use xelma_blockchain.Prelude.{
  ℕ, suc, ◌≡◌, refl, none, some, List, [], ◌∷◌, ◌++◌, map, length, if◌then◌else◌,
}
use xelma_blockchain.Machine.{u32_mod, checked_u}
use xelma_blockchain.Errors.{
  Result, ok, ok_or, ◌>>=◌, ◌>>◌, overflow, Ensures, Ensures-bind, Ensures-ok_or,
}
use xelma_blockchain.SettlementMath.Precision.{contains}
use xelma_blockchain.Contract.State.{
  Env, put, put-same, unwrap_or, Storage, Rankings, SeasonLeaderboardEntry, SeasonArchive,
}
use xelma_blockchain.Contract.Admin.{_require_supported_schema, _ensure_not_paused, admin_auth}
use xelma_blockchain.Contract.Leaderboard.{season_user_stats_raw, _current_season_id, with_rankings}

unfoldable pub season_entry : Rankings → ℕ → ℕ → SeasonLeaderboardEntry
season_entry r season_id addr =
    let stats = season_user_stats_raw r season_id addr in
    record { user = addr; wins = stats.total_wins; best_streak = stats.best_streak }

-- The second list's users who are not yet there, behind the first.
unfoldable pub distinct_participants : List ℕ → List ℕ → List ℕ
distinct_participants seen [] = seen
distinct_participants seen (addr ∷ streak_list) =
    distinct_participants (if contains seen addr then seen else seen ++ addr ∷ []) streak_list

abbrev pub archive_of : Env → Rankings → SeasonArchive
archive_of env r =
    let season_id = _current_season_id r in
    let wins_list = unwrap_or r.season_leaderboard_wins [] in
    let streak_list = unwrap_or r.season_leaderboard_streak [] in
    record {
      season_id = season_id;
      ended_at_ledger = env.sequence;
      wins = map (season_entry r season_id) wins_list;
      streak = map (season_entry r season_id) streak_list;
      participant_count = length (distinct_participants wins_list streak_list);
    }

unfoldable pub reset_leaderboard_season : Env → Storage → Result (ℕ × Storage)
reset_leaderboard_season env s = do
  _v ← _require_supported_schema s
  _admin ← admin_auth env s
  _ensure_not_paused s
  let season_id = _current_season_id s.rankings
  new_season_id ← ok_or (checked_u u32_mod (suc season_id)) overflow
  ok (
    new_season_id,
    with_rankings s (record s.rankings {
      season_archive = put s.rankings.season_archive season_id (archive_of env s.rankings);
      season_id = some new_season_id;
      season_leaderboard_wins = none;
      season_leaderboard_streak = none;
    }),
  )

-- The season is archived, and the statistics of all time and of every season stay.
pub record SeasonReset (env : Env) (s : Storage) (r : ℕ × Storage) : Type 0 where
  pub archives :
      r.1.rankings.season_archive (_current_season_id s.rankings) ≡ some (archive_of env s.rankings)
  pub opens : r.1.rankings.season_id ≡ some r.0
  pub empties :
      (r.1.rankings.season_leaderboard_wins ≡ none)
      × (r.1.rankings.season_leaderboard_streak ≡ none)
  pub keeps_stats : r.1.rankings.user_stats ≡ s.rankings.user_stats
  pub keeps_season_stats : r.1.rankings.season_user_stats ≡ s.rankings.season_user_stats
  pub keeps_funds : r.1.funds ≡ s.funds

-- A reset of the season that returns archives the season's entries under its id, opens the season that it
-- returns with empty leaderboards, and changes neither the statistics of all time, nor those of any season,
-- nor anybody's money.
pub reset_leaderboard_season-SeasonReset :
    (env : Env) (s : Storage) → Ensures (SeasonReset env s) (reset_leaderboard_season env s)
unfolding reset_leaderboard_season
reset_leaderboard_season-SeasonReset env s = Ensures-bind _ (_require_supported_schema s) _ (λ _ _.
    Ensures-bind _ (admin_auth env s) _ (λ _ _. Ensures-bind _ (_ensure_not_paused s) _ (λ _ _.
      Ensures-ok_or _ (checked_u u32_mod (suc (_current_season_id s.rankings))) _ _
        (λ new_season_id e. record {
          archives = put-same s.rankings.season_archive (_current_season_id s.rankings) _;
          opens = refl;
          empties = (refl, refl);
          keeps_stats = refl;
          keeps_season_stats = refl;
          keeps_funds = refl;
        }))))
