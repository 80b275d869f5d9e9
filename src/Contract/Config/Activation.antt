-- ===== src/Contract/Config/Activation.antt =====
-- When a scheduled change of contracts/src/config.rs takes effect, and what it changes.
use xelma_blockchain.Prelude.{
  ℕ, ◌+◌, ◌≤◌, ◌≡◌, ◌≢◌, refl, sym, ap, ◌∙◌, false, none, some, arith, ltb, leb, ◌==◌, ==_refl,
}
use xelma_blockchain.Errors.{ok, Ensures, Ensures-ok, Ensures-bind, Ensures-ok_or, Ensures-if}
use xelma_blockchain.Contract.Settings.{
  ConfigChangeKind, ConfigChangePayload, PendingConfigChange, kind_code, windows,
}
use xelma_blockchain.Contract.State.{Env, Map, remove, remove-same, remove-other, Storage, Config}
use xelma_blockchain.Contract.Admin.{
  _require_supported_schema, _ensure_not_paused, _ensure_normal_mode, admin_auth,
}
use xelma_blockchain.Contract.Insurance.{with_config}
use xelma_blockchain.Contract.Config.{
  config_timelock_ledgers, validate_payload, kind_of, write_payload, _apply_config_payload,
}
use xelma_blockchain.Contract.Config.Values.{
  _current_config_payload, current-write_payload, current-write_payload_other,
}
use xelma_blockchain.Contract.Config.Timelock.{
  apply_scheduled_changes, cancel_config_change, with_pending,
}
use xelma_blockchain.Contract.Config.Delay.{
  Step, scheduled, applied, cancelled, elsewhere, Reachable, start, next, AllDelayed, IsDelayed,
  remove-AllDelayed, run_schedule-AllDelayed,
}

-- The setting of the kind is the pending value, every other setting is as before, and nothing is pending for
-- the kind.
pub record Activated (kind : ConfigChangeKind) (pending : PendingConfigChange) (s s' : Storage)
    : Type 0 where
  pub sets : _current_config_payload s'.config kind ≡ pending.payload
  pub keeps :
      (other : ConfigChangeKind)
      → kind_code other ≢ kind_code kind
      → _current_config_payload s'.config other ≡ _current_config_payload s.config other
  pub clears : s'.config.pending_config_change (kind_code kind) ≡ none
  pub keeps_pending :
      (k : ℕ)
      → k ≢ kind_code kind
      → s'.config.pending_config_change k ≡ s.config.pending_config_change k

-- The pending changes are no setting.
current-with_pending :
    (c : Config) (m : Map PendingConfigChange) (k : ConfigChangeKind)
    → _current_config_payload (record c { pending_config_change = m }) k
      ≡ _current_config_payload c k
unfolding _current_config_payload
current-with_pending c m ConfigChangeKind.windows = refl
current-with_pending c m k = refl

write_payload-pending :
    (p : ConfigChangePayload) (c : Config)
    → (write_payload p c).pending_config_change ≡ c.pending_config_change
unfolding write_payload
write_payload-pending (windows bet run) c = refl
write_payload-pending p c = refl

-- One kind has one number.
current-same_code :
    (c : Config) (j k : ConfigChangeKind)
    → kind_code j ≡ kind_code k
    → _current_config_payload c j ≡ _current_config_payload c k
current-same_code c ConfigChangeKind.windows ConfigChangeKind.windows h = refl
current-same_code c j k h = ground arith

abbrev activated : ConfigChangeKind → ConfigChangePayload → Storage → Storage
activated kind payload s =
    let s1 = with_config s (write_payload payload s.config) in
    with_pending s1 (remove s1.config.pending_config_change (kind_code kind))

activated-Activated :
    (kind : ConfigChangeKind) (pending : PendingConfigChange) (s : Storage)
    → kind_code (kind_of pending.payload) ≡ kind_code kind
    → Activated kind pending s (activated kind pending.payload s)
activated-Activated kind pending s of_kind =
    let c = write_payload pending.payload s.config in
    let m = remove c.pending_config_change (kind_code kind) in
    record {
      sets =
          current-with_pending c m kind
          ∙ (current-same_code c kind (kind_of pending.payload) (sym of_kind)
              ∙ current-write_payload pending.payload s.config);
      keeps = λ other ne.
          current-with_pending c m other
          ∙ current-write_payload_other pending.payload s.config other (λ e. ne (e ∙ of_kind));
      clears = remove-same c.pending_config_change (kind_code kind);
      keeps_pending = λ k ne.
          remove-other c.pending_config_change (kind_code kind) k ne
          ∙ ap (λ f. f k) (write_payload-pending pending.payload s.config);
    }

apply-AllDelayed :
    (env : Env) (kind : ConfigChangeKind) (s : Storage)
    → AllDelayed s.config.pending_config_change
    → Ensures
        (λ s'. AllDelayed s'.config.pending_config_change)
        (apply_scheduled_changes env kind s)
unfolding apply_scheduled_changes _apply_config_payload
apply-AllDelayed env kind s h = Ensures-bind _ (_require_supported_schema s) _ (λ v e.
    Ensures-bind _ (_ensure_normal_mode s) _ (λ t e1.
      Ensures-ok_or _ (s.config.pending_config_change (kind_code kind)) _ _ (λ pending e2.
        Ensures-if _ (ltb env.sequence pending.activation_ledger) _ _ (λ early. tt)
          (λ due. Ensures-bind _ (_apply_config_payload kind pending.payload s) _ (λ s1 e3.
            remove-AllDelayed s1.config.pending_config_change (kind_code kind)
              (rw (Ensures-ok _ _ (applied-pending kind pending.payload s) e3) h))))))
  where
    applied-pending :
        (kind : ConfigChangeKind) (p : ConfigChangePayload) (s : Storage)
        → Ensures
            (λ s1. s1.config.pending_config_change ≡ s.config.pending_config_change)
            (_apply_config_payload kind p s)
    applied-pending kind p s =
        Ensures-if _ (kind_code kind == kind_code (kind_of p)) _ _
          (λ same. Ensures-bind _ (validate_payload p) _ (λ t e. write_payload-pending p s.config))
          (λ other. tt)

cancel-AllDelayed :
    (env : Env) (kind : ConfigChangeKind) (s : Storage)
    → AllDelayed s.config.pending_config_change
    → Ensures (λ s'. AllDelayed s'.config.pending_config_change) (cancel_config_change env kind s)
unfolding cancel_config_change
cancel-AllDelayed env kind s h = Ensures-bind _ (_require_supported_schema s) _ (λ v e.
    Ensures-bind _ (admin_auth env s) _ (λ admin e1.
      Ensures-bind _ (_ensure_not_paused s) _ (λ t e2.
        Ensures-ok_or _ (s.config.pending_config_change (kind_code kind)) _ _ (λ pending e3.
          Ensures-if _ (leb pending.activation_ledger env.sequence) _ _ (λ late. tt)
            (λ early. remove-AllDelayed s.config.pending_config_change (kind_code kind) h)))))

Step-AllDelayed :
    {s s' : Storage}
    → Step s s'
    → AllDelayed s.config.pending_config_change
    → AllDelayed s'.config.pending_config_change
Step-AllDelayed (scheduled env call {s = s} e) h =
    Ensures-ok (λ s'. AllDelayed s'.config.pending_config_change) _
      (run_schedule-AllDelayed env call s h) e
Step-AllDelayed (applied env kind {s = s} e) h =
    Ensures-ok (λ s'. AllDelayed s'.config.pending_config_change) _ (apply-AllDelayed env kind s h)
      e
Step-AllDelayed (cancelled env kind {s = s} e) h =
    Ensures-ok (λ s'. AllDelayed s'.config.pending_config_change) _ (cancel-AllDelayed env kind s h)
      e
Step-AllDelayed (elsewhere e) h = rw e h

pub Reachable-AllDelayed : {s : Storage} → Reachable s → AllDelayed s.config.pending_config_change
Reachable-AllDelayed (start s h) = λ k pending e. let x : ⊥ = cc (h k) in absurd x
Reachable-AllDelayed (next r step) = Step-AllDelayed step (Reachable-AllDelayed r)

abbrev Applied : Env → ConfigChangeKind → Storage → Storage → Type 0
Applied env kind s s' =
    (pending : PendingConfigChange) × (s.config.pending_config_change (kind_code kind)
      ≡ some pending)
    × (pending.scheduled_at_ledger + config_timelock_ledgers ≤ env.sequence)
    × Activated kind pending s s'

-- In every such storage a pending change can be applied: once its 1440 ledgers have passed, in the normal
-- mode and under a supported schema, an application by anybody returns, with that effect.
pub apply_scheduled_changes-Returns :
    (env : Env) (kind : ConfigChangeKind) (pending : PendingConfigChange) {s : Storage} {v : ℕ}
    → Reachable s
    → s.config.pending_config_change (kind_code kind) ≡ some pending
    → pending.scheduled_at_ledger + config_timelock_ledgers ≤ env.sequence
    → _require_supported_schema s ≡ ok v
    → _ensure_normal_mode s ≡ ok tt
    → (s' : Storage) × (apply_scheduled_changes env kind s ≡ ok s') × Activated kind pending s s'
unfolding apply_scheduled_changes _apply_config_payload
apply_scheduled_changes-Returns env kind pending {s = s} r e due schema mode =
    let d = Reachable-AllDelayed r (kind_code kind) pending e in
    (
      activated kind pending.payload s,
      rw (schema, mode, e)
          (rw (on_time pending d due) (rw (d.of_kind, ==_refl (kind_code kind), d.checked) refl)),
      activated-Activated kind pending s d.of_kind,
    )
  where
    on_time :
        (pending : PendingConfigChange)
        → IsDelayed (kind_code kind) pending
        → pending.scheduled_at_ledger + config_timelock_ledgers ≤ env.sequence
        → ltb env.sequence pending.activation_ledger ≡ false
    on_time pending d due = ground (arith, d.delayed)
