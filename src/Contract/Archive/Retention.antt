-- ===== src/Contract/Archive/Retention.antt =====
-- How many rounds the archive lists (`_archive_round` of contracts/src/settlement.rs).
use xelma_blockchain.Prelude.{
  ℕ, suc, ◌≤◌, ◌≡◌, ◌≢◌, refl, ◌∙◌, none, some, List, [], ◌∷◌, ◌++◌, length, length-append, ltb,
  true, arith,
}
use xelma_blockchain.Contract.State.{
  Env, put-other, remove-same, remove-other, unwrap_or, Storage, Archives, Round,
  RoundArchiveStatus,
}
use xelma_blockchain.Contract.Archive.{
  default_archive_retention, drop_archived, prune_archives, _archive_round,
}

prune-fits :
    (limit : ℕ) (recent : List ℕ) (archives : Archives)
    → length recent ≤ limit
    → prune_archives limit recent archives ≡ (recent, archives)
unfolding prune_archives
prune-fits limit [] archives h = refl
prune-fits limit (x ∷ []) archives h = ground arith
prune-fits limit (x ∷ y ∷ recent) archives h = ground arith

prune-full :
    (limit oldest next id : ℕ) (recent : List ℕ) (archives : Archives)
    → limit ≡ suc (suc (length recent))
    → prune_archives limit (oldest ∷ next ∷ (recent ++ id ∷ [])) archives
      ≡ (recent ++ id ∷ [], drop_archived oldest archives)
unfolding prune_archives
prune-full limit oldest next id recent archives full =
    let longer : ltb limit (length (oldest ∷ next ∷ (recent ++ id ∷ []))) ≡ true =
      ground (arith, length-append recent (id ∷ [])) in
    rw longer (
      prune-fits limit (recent ++ id ∷ []) (drop_archived oldest archives)
        (omega (arith, length-append recent (id ∷ []))))

-- When the list of recent rounds holds exactly as many rounds as are to be retained, at least two, then
-- archiving one more round leaves two rounds out of the list, the oldest and the next, and appends the new
-- one: one less than are to be retained. The summary of the oldest is gone; that of the next, if it is
-- neither the oldest's nor the new round's id, is still stored as it was, though it is not listed.
pub _archive_round-Retention :
    (env : Env) (round : Round) (status : RoundArchiveStatus) (final_price : ℕ)
    (participants : List ℕ) (s : Storage) (oldest next : ℕ) (recent : List ℕ)
    → s.archives.recent_archived_round_ids ≡ some (oldest ∷ next ∷ recent)
    → unwrap_or s.config.limits.archive_retention default_archive_retention
      ≡ suc (suc (length recent))
    → next ≢ oldest
    → next ≢ round.round_id
    → ((_archive_round env round status final_price participants
          s).archives.recent_archived_round_ids
        ≡ some (recent ++ round.round_id ∷ []))
      × ((_archive_round env round status final_price participants s).archives.archived_round oldest
          ≡ none)
      × ((_archive_round env round status final_price participants s).archives.archived_round next
          ≡ s.archives.archived_round next)
unfolding _archive_round
_archive_round-Retention env round status final_price participants s oldest next recent listed full
      apart other =
    let limit = unwrap_or s.config.limits.archive_retention default_archive_retention in
    rw (listed, prune-full limit oldest next round.round_id recent _ full)
      (
        refl,
        remove-same _ oldest,
        remove-other _ oldest next apart
            ∙ put-other s.archives.archived_round round.round_id _ next other,
      )
