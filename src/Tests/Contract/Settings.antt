-- ===== src/Tests/Contract/Settings.antt =====
-- A change of the largest stake, scheduled and applied (contracts/src/config.rs).
use xelma_blockchain.Prelude.{◌≡◌, refl, some, arith}
use xelma_blockchain.Int.{pos}
use xelma_blockchain.Errors.{ok}
use xelma_blockchain.Contract.Settings.{ConfigChangeKind, PendingConfigChange, max_stake}
use xelma_blockchain.Contract.State.{Storage, put, remove}
use xelma_blockchain.Contract.Admin.{_require_supported_schema, _ensure_normal_mode}
use xelma_blockchain.Contract.Insurance.{with_config}
use xelma_blockchain.Contract.Config.{write_payload}
use xelma_blockchain.Contract.Config.Timelock.{
  schedule_max_stake, apply_scheduled_changes, with_pending,
}
use xelma_blockchain.Contract.Config.Delay.{
  schedule_max_stake as schedule_max_stake_call, scheduled, Reachable, start, next,
}
use xelma_blockchain.Contract.Config.Activation.{Activated, apply_scheduled_changes-Returns}
use xelma_blockchain.Tests.Contract.{everyone_at, base, nothing}

abbrev largest_stake : PendingConfigChange
largest_stake = record {
  payload = max_stake (some (pos 50));
  activation_ledger = 1_450;
  scheduled_at_ledger = 10;
}

abbrev waiting : Storage
waiting = with_pending base (put nothing 1 largest_stake)

abbrev changed : Storage
changed =
    with_pending (with_config waiting (write_payload largest_stake.payload waiting.config))
      (remove (put nothing 1 largest_stake) 1)

one_scheduled : schedule_max_stake (everyone_at 10) (some (pos 50)) base ≡ ok waiting
unfolding schedule_max_stake _require_supported_schema
    xelma_blockchain.Contract.Config._validate_max_stake
    xelma_blockchain.Contract.Config.Timelock._schedule_config_change
    xelma_blockchain.Contract.Admin.admin_auth xelma_blockchain.Contract.State.require_auth
    xelma_blockchain.Contract.Admin._ensure_not_paused xelma_blockchain.Contract.Admin._policy_gate
    xelma_blockchain.Machine.checked_u
one_scheduled = refl

waiting-Reachable : Reachable waiting
waiting-Reachable =
    next (start base (λ k. refl))
      (scheduled (everyone_at 10) (schedule_max_stake_call (some (pos 50))) one_scheduled)

schema_supported : _require_supported_schema waiting ≡ ok 3
unfolding _require_supported_schema
schema_supported = refl

mode_normal : _ensure_normal_mode waiting ≡ ok tt
unfolding _ensure_normal_mode xelma_blockchain.Contract.Admin._policy_gate
mode_normal = refl

one_pending : waiting.config.pending_config_change 1 ≡ some largest_stake
unfolding put
one_pending = refl

apply_scheduled_changes-Returns_example :
    (s' : Storage) × (apply_scheduled_changes (everyone_at 2_000) ConfigChangeKind.max_stake waiting
      ≡ ok s')
    × Activated ConfigChangeKind.max_stake largest_stake waiting s'
apply_scheduled_changes-Returns_example =
    apply_scheduled_changes-Returns (everyone_at 2_000) ConfigChangeKind.max_stake largest_stake
      waiting-Reachable one_pending (omega arith) schema_supported mode_normal
