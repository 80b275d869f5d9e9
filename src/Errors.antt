-- ===== src/Errors.antt =====
-- contracts/src/errors.rs: the contract's error codes, and the results of a call. `panic` is a host
-- trap (a checked operator that overflows, an index out of range, a failed `require_auth`).
use xelma_blockchain.Prelude.{
  Bool, true, false, if◌then◌else◌, Option, none, some, ◌≡◌, refl, ap, subst,
}

pub data ContractError : Type 0 where
  already_initialized admin_not_set oracle_not_set invalid_bet_amount no_active_round :
      ContractError
  round_ended insufficient_balance already_bet overflow invalid_price : ContractError
  invalid_duration invalid_mode wrong_mode_for_prediction round_not_ended : ContractError
  stale_oracle_data invalid_oracle_round round_already_active contract_paused : ContractError
  window_out_of_range future_oracle_data payout_overflow round_not_cancellable : ContractError
  stake_exceeds_max exposure_cap_exceeded pending_winnings_cap_exceeded : ContractError
  invalid_start_price oracle_nonce_reused invalid_min_participants : ContractError
  invalid_precision_cap precision_cap_exceeded oracle_deviation_exceeded : ContractError
  unsupported_schema_version migration_active_round commitment_not_found : ContractError
  already_revealed invalid_reveal_window hash_mismatch oracle_network_mismatch : ContractError
  invalid_protocol_fee_bps mint_limit_exceeded no_pending_rotation : ContractError
  rotation_delay_not_elapsed invalid_archive_retention invalid_commitment : ContractError
  invalid_salt no_round_template oracle_timestamp_outside_window : ContractError
  pending_winnings_not_expired epoch_budget_exceeded oracle_not_live : ContractError
  invalid_payout_policy below_min_bet insufficient_oracle_quorum too_few_observations :
      ContractError
  oracle_outlier_rejected duplicate_oracle_source invalid_observation_order : ContractError
  unsupported_data_key_for_ttl_touch pending_winnings_not_found : ContractError
  expiry_not_configured access_denied proposal_not_found proposal_expired : ContractError
  gov_invalid_state gov_unauthorized illegal_phase_transition : ContractError
  oracle_heartbeat_unhealthy claim_batch_too_large duplicate_claim_address : ContractError
  early_cashout_disabled position_not_found invalid_phase_for_cashout : ContractError
  wrong_mode_for_cashout insurance_invalid_split insurance_insufficient_fund : ContractError
  invalid_amount dispute_window_expired claim_locked round_start_ledger_reused : ContractError
  page_size_exceeded : ContractError

pub data Result {ℓ} (A : Type ℓ) : Type ℓ where
  ok : A → Result A
  err : ContractError → Result A
  panic : Result A

infixl 5 ◌>>=◌ ◌>>◌
abbrev pub ◌>>=◌ {ℓ κ} : {A : Type ℓ} {B : Type κ} → Result A → (A → Result B) → Result B
ok a >>= f = f a
err e >>= f = err e
panic >>= f = panic

abbrev pub ◌>>◌ {ℓ} : {B : Type ℓ} → Result (Unit {0}) → Result B → Result B
m >> k = m >>= λ _. k

-- `o.ok_or(e)?`
abbrev pub ok_or {ℓ} : {A : Type ℓ} → Option A → ContractError → Result A
ok_or none e = err e
ok_or (some a) e = ok a

-- An operator that traps where its checked form has no value.
abbrev pub or_panic {ℓ} : {A : Type ℓ} → Option A → Result A
or_panic none = panic
or_panic (some a) = ok a

unfoldable pub value_or {ℓ} : {A : Type ℓ} → A → Result A → A
value_or d (ok a) = a
value_or d (err e) = d
value_or d panic = d

pub ok-injective {ℓ} : {A : Type ℓ} {a b : A} → ok a ≡ ok b → a ≡ b
unfolding value_or
ok-injective {a = a} p = ap (value_or a) p

-- What holds of the value if the call returns one.
abbrev pub Ensures {ℓ κ} : {A : Type ℓ} → (A → Type κ) → Result A → Type κ
Ensures P (ok a) = P a
Ensures P (err e) = Unit
Ensures P panic = Unit

pub Ensures-bind {ℓ κ μ} :
    {A : Type ℓ} {B : Type κ} (P : B → Type μ) (m : Result A) (f : A → Result B)
    → ((a : A) → m ≡ ok a → Ensures P (f a))
    → Ensures P (m >>= f)
Ensures-bind P (ok a) f h = h a refl
Ensures-bind P (err e) f h = tt
Ensures-bind P panic f h = tt

pub Ensures-ok {ℓ κ} :
    {A : Type ℓ} (P : A → Type κ) (m : Result A) {a : A} → Ensures P m → m ≡ ok a → P a
Ensures-ok P (ok b) h e = subst P (ok-injective e) h
Ensures-ok P (err x) h e = cc
Ensures-ok P panic h e = cc

-- The call returns a value, and this holds of it.
abbrev pub Returns {ℓ} : {A : Type ℓ} → (A → Type 0) → Result A → Type 0
Returns P (ok a) = P a
Returns P (err e) = ⊥
Returns P panic = ⊥

pub Returns-ok {ℓ} :
    {A : Type ℓ} (P : A → Type 0) (m : Result A) → Returns P m → (a : A) × (m ≡ ok a) × P a
Returns-ok P (ok a) h = (a, refl, h)
Returns-ok P (err e) h = absurd h
Returns-ok P panic h = absurd h

pub Returns-Ensures {ℓ} : {A : Type ℓ} (P : A → Type 0) (m : Result A) → Returns P m → Ensures P m
Returns-Ensures P (ok a) h = h
Returns-Ensures P (err e) h = tt
Returns-Ensures P panic h = tt

pub Ensures-weaken {ℓ κ μ} :
    {A : Type ℓ} {P : A → Type κ} {Q : A → Type μ} (m : Result A)
    → ((a : A) → P a → Q a)
    → Ensures P m
    → Ensures Q m
Ensures-weaken (ok a) f h = f a h
Ensures-weaken (err e) f h = tt
Ensures-weaken panic f h = tt

pub Ensures-ok_or {ℓ κ μ} :
    {A : Type ℓ} {B : Type κ} (P : B → Type μ) (o : Option A) (e : ContractError) (f : A → Result B)
    → ((a : A) → o ≡ some a → Ensures P (f a))
    → Ensures P (ok_or o e >>= f)
Ensures-ok_or P none e f h = tt
Ensures-ok_or P (some a) e f h = h a refl

-- A conditional call ensures what both of its branches do.
pub Ensures-if {ℓ μ} :
    {A : Type ℓ} (P : A → Type μ) (b : Bool) (m k : Result A)
    → (b ≡ true → Ensures P m)
    → (b ≡ false → Ensures P k)
    → Ensures P (if b then m else k)
Ensures-if P true m k h g = h refl
Ensures-if P false m k h g = g refl

pub Ensures-both {ℓ κ μ} :
    {A : Type ℓ} (P : A → Type κ) (Q : A → Type μ) (m : Result A)
    → Ensures P m
    → Ensures Q m
    → Ensures (λ a. P a × Q a) m
Ensures-both P Q (ok a) h k = (h, k)
Ensures-both P Q (err e) h k = tt
Ensures-both P Q panic h k = tt
