-- ===== src/Tests/Contract/Endings.antt =====
-- The dispute window of contracts/src/settlement.rs, and the archive, at a small storage.
use xelma_blockchain.Prelude.{◌≡◌, ◌≢◌, refl, inl, none, some, [], ◌∷◌, arith}
use xelma_blockchain.Int.{pos}
use xelma_blockchain.Errors.{ok, value_or}
use xelma_blockchain.Contract.State.{
  Storage, Round, up_down, precision, resolved, PendingDisputeSettlement,
}
use xelma_blockchain.Contract.Betting.{with_rounds}
use xelma_blockchain.Contract.Archive.{with_archives, _archive_round}
use xelma_blockchain.Contract.Archive.Retention.{_archive_round-Retention}
use xelma_blockchain.Contract.Disputes.Calls.{void_round, finalize_round}
use xelma_blockchain.Contract.Disputes.Closing.{Voided, Finalized}
use xelma_blockchain.Contract.Disputes.Window.{
  void_round-Voided, finalize_round-Finalized, settled_once,
}
use xelma_blockchain.Tests.Contract.{everyone_at, only, base}
use xelma_blockchain.Tests.Contract.Stakes.{round_with, one_bet}
use xelma_blockchain.Tests.Contract.Precisions.{predicted}

abbrev newer : Round
newer = record (round_with up_down 0 0) { round_id = 4; start_ledger = 22; end_ledger = 40 }

abbrev staged : Round → PendingDisputeSettlement
staged round = record {
  round = round;
  final_price = 2_298;
  confidence = none;
  resolved_at_ledger = 21;
  deadline_ledger = 30;
}

-- Round 3 waits for ledger 30, and round 4 has been opened.
abbrev waiting : Storage → Round → Storage
waiting s round =
    with_archives (with_rounds s (record s.rounds { active_round = some newer }))
      (record s.archives { pending_disputes = only 3 (staged round) })

abbrev disputed : Storage
disputed = waiting predicted (round_with precision 0 0)

abbrev after_void : Storage
after_void = value_or disputed (void_round (everyone_at 25) 3 disputed)

one_void : void_round (everyone_at 25) 3 disputed ≡ ok after_void
unfolding value_or void_round xelma_blockchain.Contract.Admin._require_supported_schema
    xelma_blockchain.Contract.Admin._ensure_not_paused xelma_blockchain.Contract.Admin._policy_gate
    xelma_blockchain.Contract.Disputes._read_pending_dispute
    xelma_blockchain.Contract.Disputes.Calls.void_participants
    xelma_blockchain.Contract.Disputes.Calls.void_participant
    xelma_blockchain.Contract.Disputes.Calls.void_stake
    xelma_blockchain.Contract.PrecisionResolution.staked_amount xelma_blockchain.Contract.State.put
    xelma_blockchain.SettlementMath.Common.payout_add xelma_blockchain.Machine.checked_add
    xelma_blockchain.Int.◌+ℤ◌ xelma_blockchain.Contract.Balances._accumulate_pending
    xelma_blockchain.Contract.CashOut._persist_user_outcome
    xelma_blockchain.Contract.State.put_in_round
one_void = refl

void_round-Voided_example : Voided (everyone_at 25) 3 disputed after_void
void_round-Voided_example = void_round-Voided (everyone_at 25) 3 disputed one_void

settled_once_example :
    (void_round (everyone_at 26) 3 after_void ≢ ok base)
    × (finalize_round (everyone_at 26) 3 after_void ≢ ok base)
settled_once_example =
    settled_once (everyone_at 25) (everyone_at 26) 3 disputed after_void base (inl one_void)

-- One pool is empty, so that the only stake is refunded; round 4 is not active any more.
abbrev one_sided : Storage
one_sided = waiting one_bet (round_with up_down 0 30)

abbrev after_final : Storage
after_final = value_or one_sided (finalize_round (everyone_at 30) 3 one_sided)

one_final : finalize_round (everyone_at 30) 3 one_sided ≡ ok after_final
unfolding value_or finalize_round xelma_blockchain.Contract.Admin._require_supported_schema
    xelma_blockchain.Contract.Admin._ensure_not_paused xelma_blockchain.Contract.Admin._policy_gate
    xelma_blockchain.Contract.Disputes._read_pending_dispute
    xelma_blockchain.Contract.Disputes._complete_settlement
    xelma_blockchain.Contract.Resolution._resolve_updown_mode
    xelma_blockchain.SettlementMath.Common.is_one_sided_pool
    xelma_blockchain.Contract.Resolution._apply_one_sided_policy
    xelma_blockchain.Contract.Resolution._select_one_sided_policy
    xelma_blockchain.Contract.Resolution.refund_listed
    xelma_blockchain.Contract.Balances.sort_addresses
    xelma_blockchain.Contract.Settlement._record_refunds_indexed
    xelma_blockchain.Contract.Settlement.refund_participant
    xelma_blockchain.Contract.Balances._accumulate_pending
    xelma_blockchain.SettlementMath.Common.payout_add xelma_blockchain.Machine.checked_add
    xelma_blockchain.Int.◌+ℤ◌
one_final = refl

finalize_round-Finalized_example : Finalized (everyone_at 30) 3 one_sided after_final
finalize_round-Finalized_example = finalize_round-Finalized (everyone_at 30) 3 one_sided one_final

-- Two rounds are kept, and round 3 is added.
abbrev two_kept : Storage
two_kept =
    with_archives
      (record base {
        config = record base.config {
          limits = record base.config.limits { archive_retention = some 2 };
        };
      })
      (record base.archives { recent_archived_round_ids = some (1 ∷ 2 ∷ []) })

abbrev kept : Storage
kept = _archive_round (everyone_at 21) (round_with up_down 0 30) resolved 2_298 (2 ∷ []) two_kept

_archive_round-Retention_example :
    (kept.archives.recent_archived_round_ids ≡ some (3 ∷ []))
    × (kept.archives.archived_round 1 ≡ none)
    × (kept.archives.archived_round 2 ≡ two_kept.archives.archived_round 2)
_archive_round-Retention_example =
    _archive_round-Retention (everyone_at 21) (round_with up_down 0 30) resolved 2_298 (2 ∷ [])
      two_kept 1 2 [] refl refl (omega arith) (omega arith)
