-- ===== src/Contract/Config/Delay.antt =====
-- The timelock of contracts/src/config.rs: what can be pending, over all sequences of calls.
use xelma_blockchain.Prelude.{
  ℕ, ◌+◌, ◌≡◌, inl, inr, refl, sym, subst, ◌∙◌, Option, none, some, arith, eq-cases, some-injective,
}
use xelma_blockchain.Int.{ℤ}
use xelma_blockchain.Machine.{checked_u, u32_mod}
use xelma_blockchain.Errors.{Result, ok, Ensures, Ensures-bind, Ensures-ok_or, Ensures-if}
use xelma_blockchain.Contract.Settings.{
  ConfigChangeKind, ConfigChangePayload, PendingConfigChange, kind_code, windows, max_stake,
  max_user_round_exposure, max_pending_winnings, min_bet, oracle_stale_threshold,
  oracle_timestamp_skew, oracle_max_deviation_bps, protocol_fee_bps, pending_winnings_expiry,
}
use xelma_blockchain.Contract.State.{
  Env, Map, put, put-same, put-other, remove, remove-same, remove-other, is_some, Storage,
}
use xelma_blockchain.Contract.Admin.{_require_supported_schema, _ensure_not_paused, admin_auth}
use xelma_blockchain.Contract.Config.{config_timelock_ledgers, validate_payload, kind_of}
use xelma_blockchain.Contract.Config.Timelock

-- The entry points that schedule a change.
pub data ScheduleCall : Type 0 where
  schedule_windows : ℕ → ℕ → ScheduleCall
  schedule_min_bet schedule_max_stake schedule_max_user_exposure schedule_max_pending_winnings :
      Option ℤ → ScheduleCall
  schedule_oracle_stale_threshold schedule_oracle_timestamp_skew schedule_pending_winnings_expiry :
      ℕ → ScheduleCall
  schedule_oracle_deviation_bps schedule_protocol_fee_bps : Option ℕ → ScheduleCall

abbrev pub run_schedule : Env → ScheduleCall → Storage → Result Storage
run_schedule env (schedule_windows bet run) s = Timelock.schedule_windows env bet run s
run_schedule env (schedule_min_bet a) s = Timelock.schedule_min_bet env a s
run_schedule env (schedule_max_stake a) s = Timelock.schedule_max_stake env a s
run_schedule env (schedule_max_user_exposure a) s = Timelock.schedule_max_user_exposure env a s
run_schedule env (schedule_max_pending_winnings a) s =
    Timelock.schedule_max_pending_winnings env a s
run_schedule env (schedule_oracle_stale_threshold n) s =
    Timelock.schedule_oracle_stale_threshold env n s
run_schedule env (schedule_oracle_timestamp_skew n) s =
    Timelock.schedule_oracle_timestamp_skew env n s
run_schedule env (schedule_pending_winnings_expiry n) s =
    Timelock.schedule_pending_winnings_expiry env n s
run_schedule env (schedule_oracle_deviation_bps b) s =
    Timelock.schedule_oracle_deviation_bps env b s
run_schedule env (schedule_protocol_fee_bps b) s = Timelock.schedule_protocol_fee_bps env b s

-- A call that returns; any other entry point leaves the pending changes alone.
pub data Step : Storage → Storage → Type 0 where
  scheduled :
      (env : Env) (call : ScheduleCall) {s s' : Storage}
      → run_schedule env call s ≡ ok s'
      → Step s s'
  applied :
      (env : Env) (kind : ConfigChangeKind) {s s' : Storage}
      → Timelock.apply_scheduled_changes env kind s ≡ ok s'
      → Step s s'
  cancelled :
      (env : Env) (kind : ConfigChangeKind) {s s' : Storage}
      → Timelock.cancel_config_change env kind s ≡ ok s'
      → Step s s'
  elsewhere :
      {s s' : Storage}
      → s'.config.pending_config_change ≡ s.config.pending_config_change
      → Step s s'

-- From a contract without pending changes.
pub data Reachable : Storage → Type 0 where
  start : (s : Storage) → ((k : ℕ) → s.config.pending_config_change k ≡ none) → Reachable s
  next : {s s' : Storage} → Reachable s → Step s s' → Reachable s'

-- An entry is a checked value of its kind, due a full delay after it was scheduled.
pub record IsDelayed (k : ℕ) (pending : PendingConfigChange) : Type 0 where
  pub of_kind : kind_code (kind_of pending.payload) ≡ k
  pub delayed : pending.activation_ledger ≡ pending.scheduled_at_ledger + config_timelock_ledgers
  pub checked : validate_payload pending.payload ≡ ok tt

abbrev pub AllDelayed : Map PendingConfigChange → Type 0
AllDelayed m = (k : ℕ) (pending : PendingConfigChange) → m k ≡ some pending → IsDelayed k pending

put-AllDelayed :
    (m : Map PendingConfigChange) (k : ℕ) (pending : PendingConfigChange)
    → AllDelayed m
    → IsDelayed k pending
    → AllDelayed (put m k pending)
put-AllDelayed m k pending h new i p e = elim (eq-cases i k) [
  | inl same ↦
      subst (λ j. IsDelayed j p) (sym same)
        (subst (IsDelayed k) (some-injective (sym (put-same m k pending) ∙ (rw same at e))) new)
  | inr other ↦ h i p (sym (put-other m k pending i other) ∙ e)
]

pub remove-AllDelayed :
    (m : Map PendingConfigChange) (k : ℕ) → AllDelayed m → AllDelayed (remove m k)
remove-AllDelayed m k h i p e = elim (eq-cases i k) [
  | inl same ↦ let x : ⊥ = cc (sym (remove-same m k) ∙ (rw same at e)) in absurd x
  | inr other ↦ h i p (sym (remove-other m k i other) ∙ e)
]

checked_u-eq : (w n m : ℕ) → checked_u w n ≡ some m → m ≡ n
unfolding checked_u
checked_u-eq w n m h = ground arith

schedule-AllDelayed :
    (env : Env) (valid : Result (Unit {0})) (kind : ConfigChangeKind)
    (payload : ConfigChangePayload) (s : Storage)
    → kind_code (kind_of payload) ≡ kind_code kind
    → valid ≡ validate_payload payload
    → AllDelayed s.config.pending_config_change
    → Ensures
        (λ s'. AllDelayed s'.config.pending_config_change)
        (Timelock.schedule env valid kind payload s)
unfolding Timelock.schedule Timelock._schedule_config_change
schedule-AllDelayed env valid kind payload s of_kind same h =
    Ensures-bind _ (_require_supported_schema s) _ (λ v e. Ensures-bind _ valid _ (λ t checked.
      Ensures-bind _ (admin_auth env s) _ (λ admin e1.
        Ensures-bind _ (_ensure_not_paused s) _ (λ t' e2.
          Ensures-if _ (is_some (s.config.pending_config_change (kind_code kind))) _ _ (λ x. tt)
            (λ free.
              Ensures-ok_or _ (checked_u u32_mod (env.sequence + config_timelock_ledgers)) _ _
                (λ activation due.
                  put-AllDelayed s.config.pending_config_change (kind_code kind) _ h (record {
                    of_kind = of_kind;
                    delayed = checked_u-eq _ _ _ due;
                    checked = sym same ∙ checked;
                  })))))))

pub run_schedule-AllDelayed :
    (env : Env) (call : ScheduleCall) (s : Storage)
    → AllDelayed s.config.pending_config_change
    → Ensures (λ s'. AllDelayed s'.config.pending_config_change) (run_schedule env call s)
unfolding validate_payload kind_of Timelock.schedule_windows Timelock.schedule_min_bet
    Timelock.schedule_max_stake Timelock.schedule_max_user_exposure
    Timelock.schedule_max_pending_winnings Timelock.schedule_oracle_stale_threshold
    Timelock.schedule_oracle_timestamp_skew Timelock.schedule_pending_winnings_expiry
    Timelock.schedule_oracle_deviation_bps Timelock.schedule_protocol_fee_bps
run_schedule-AllDelayed env (schedule_windows bet run) s h =
    schedule-AllDelayed env _ ConfigChangeKind.windows (windows bet run) s refl refl h
run_schedule-AllDelayed env (schedule_min_bet a) s h =
    schedule-AllDelayed env _ ConfigChangeKind.min_bet (min_bet a) s refl refl h
run_schedule-AllDelayed env (schedule_max_stake a) s h =
    schedule-AllDelayed env _ ConfigChangeKind.max_stake (max_stake a) s refl refl h
run_schedule-AllDelayed env (schedule_max_user_exposure a) s h =
    schedule-AllDelayed env _ ConfigChangeKind.max_user_round_exposure (max_user_round_exposure a) s
      refl refl h
run_schedule-AllDelayed env (schedule_max_pending_winnings a) s h =
    schedule-AllDelayed env _ ConfigChangeKind.max_pending_winnings (max_pending_winnings a) s refl
      refl h
run_schedule-AllDelayed env (schedule_oracle_stale_threshold n) s h =
    schedule-AllDelayed env _ ConfigChangeKind.oracle_stale_threshold (oracle_stale_threshold n) s
      refl refl h
run_schedule-AllDelayed env (schedule_oracle_timestamp_skew n) s h =
    schedule-AllDelayed env _ ConfigChangeKind.oracle_timestamp_skew (oracle_timestamp_skew n) s
      refl refl h
run_schedule-AllDelayed env (schedule_pending_winnings_expiry n) s h =
    schedule-AllDelayed env _ ConfigChangeKind.pending_winnings_expiry (pending_winnings_expiry n) s
      refl refl h
run_schedule-AllDelayed env (schedule_oracle_deviation_bps b) s h =
    schedule-AllDelayed env _ ConfigChangeKind.oracle_max_deviation_bps (oracle_max_deviation_bps b)
      s refl refl h
run_schedule-AllDelayed env (schedule_protocol_fee_bps b) s h =
    schedule-AllDelayed env _ ConfigChangeKind.protocol_fee_bps (protocol_fee_bps b) s refl refl h
