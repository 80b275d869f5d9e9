-- ===== src/Contract/Archive.antt =====
-- The archive of the rounds that are over, and what is cleared of a round: `_archive_round` and
-- `_clear_dispute_round_storage` of contracts/src/settlement.rs. The fee, the confidence and the pot go into an
-- event alone, and are left out; so are the legacy keys that nothing else reads.
pub mod Retention
use xelma_blockchain.Prelude.{
  ℕ, Option, none, some, List, [], ◌∷◌, ◌++◌, length, ltb, if◌then◌else◌,
}
use xelma_blockchain.Contract.State.{
  Env, Map, put, remove, remove_in_round, unwrap_or, Storage, Rounds, Archives, Round,
  RoundArchiveStatus, ArchivedRoundSummary,
}
use xelma_blockchain.Contract.Betting.{with_rounds}

abbrev pub default_archive_retention : ℕ
default_archive_retention = 128

abbrev pub with_archives : Storage → Archives → Storage
with_archives s archives = record s { archives = archives }

abbrev pub summary_of : Env → Round → RoundArchiveStatus → ℕ → List ℕ → ArchivedRoundSummary
summary_of env round status final_price participants = record {
  round_id = round.round_id;
  price_start = round.price_start;
  price_final = final_price;
  mode = round.mode;
  status = status;
  pool_up = round.pool_up;
  pool_down = round.pool_down;
  participant_count = length participants;
  settled_at_ledger = env.sequence;
}

-- The index of the rounds by user.
unfoldable pub index_participants : ℕ → List ℕ → Map (List ℕ) → Map (List ℕ)
index_participants round_id [] index = index
index_participants round_id (user ∷ users) index =
    index_participants round_id users (put index user (unwrap_or (index user) [] ++ round_id ∷ []))

-- The removal of an archived round and of its mark as cancelled.
abbrev pub drop_archived : ℕ → Archives → Archives
drop_archived oldest archives = record archives {
  archived_round = remove archives.archived_round oldest;
  cancelled_round = remove archives.cancelled_round oldest;
}

-- The loop that makes room: each time around, the oldest round is dropped, and the first of the list is
-- removed twice.
unfoldable pub prune_archives : ℕ → List ℕ → Archives → List ℕ × Archives
prune_archives retention_limit [] archives = ([], archives)
prune_archives retention_limit (oldest ∷ []) archives =
    if ltb retention_limit 1 then ([], drop_archived oldest archives) else (oldest ∷ [], archives)
prune_archives retention_limit (oldest ∷ next ∷ recent) archives =
    let pruned = prune_archives retention_limit recent (drop_archived oldest archives) in
    if ltb retention_limit (length (oldest ∷ next ∷ recent))
    then pruned
    else (oldest ∷ next ∷ recent, archives)

unfoldable pub _archive_round : Env → Round → RoundArchiveStatus → ℕ → List ℕ → Storage → Storage
_archive_round env round status final_price participants s =
    let archives = record s.archives {
      user_archived_round_ids =
          index_participants round.round_id participants s.archives.user_archived_round_ids;
      archived_round =
          put s.archives.archived_round round.round_id
            (summary_of env round status final_price participants);
    } in
    let recent = unwrap_or s.archives.recent_archived_round_ids [] ++ round.round_id ∷ [] in
    let retention_limit = unwrap_or s.config.limits.archive_retention default_archive_retention in
    let (recent', archives') = prune_archives retention_limit recent archives in
    with_archives s (record archives' { recent_archived_round_ids = some recent' })

-- The stakes of the listed users.
unfoldable pub clear_positions : ℕ → List ℕ → Rounds → Rounds
clear_positions round_id [] rounds = rounds
clear_positions round_id (user ∷ users) rounds = clear_positions round_id users (record rounds {
  position = remove_in_round rounds.position round_id user;
  precision_position = remove_in_round rounds.precision_position round_id user;
  precision_commitment = remove_in_round rounds.precision_commitment round_id user;
})

-- The active round stays.
unfoldable pub _clear_dispute_round_storage : ℕ → List ℕ → Storage → Storage
_clear_dispute_round_storage round_id participants s =
    let rounds = clear_positions round_id participants s.rounds in
    with_rounds s (record rounds { participants = remove rounds.participants round_id })

-- `clear_round_storage` of contracts/src/storage.rs: what is cleared of a cancelled round, the active
-- round with it.
unfoldable pub clear_round_storage : ℕ → List ℕ → Storage → Storage
clear_round_storage round_id participants s =
    let rounds = clear_positions round_id participants s.rounds in
    with_rounds s
      (record rounds { participants = remove rounds.participants round_id; active_round = none })
