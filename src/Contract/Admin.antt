-- ===== src/Contract/Admin.antt =====
-- The gates of contracts/src/admin.rs that every entry point passes: the schema version, the
-- administrator's signature and the runtime mode.
use xelma_blockchain.Prelude.{ℕ, Bool, true, false, not, ◌||◌, some, ltb, ◌==◌, if◌then◌else◌}
use xelma_blockchain.Errors.{
  Result, ok, err, ok_or, ◌>>=◌, ◌>>◌, contract_paused, unsupported_schema_version, admin_not_set,
}
use xelma_blockchain.Contract.State.{
  Env, require_auth, unwrap_or, Storage, RuntimeMode, normal, claims_only, fully_paused,
  PolicyAction, round_mutation, claim, admin_config, settlement,
}

abbrev pub current_schema_version : ℕ
current_schema_version = 3

unfoldable pub _require_supported_schema : Storage → Result ℕ
_require_supported_schema s =
    let v = unwrap_or s.schema_version 1 in
    if v == 0 || ltb current_schema_version v then err unsupported_schema_version else ok v

abbrev pub mode_eq : RuntimeMode → RuntimeMode → Bool
mode_eq normal normal = true
mode_eq claims_only claims_only = true
mode_eq fully_paused fully_paused = true
mode_eq _ _ = false

unfoldable pub _current_mode : Storage → RuntimeMode
_current_mode s = unwrap_or s.paused normal

-- The modes that block an action.
unfoldable pub is_blocked : PolicyAction → RuntimeMode → Bool
is_blocked round_mutation mode = not (mode_eq mode normal)
is_blocked claim mode = mode_eq mode fully_paused
is_blocked admin_config mode = mode_eq mode fully_paused
is_blocked settlement mode = mode_eq mode fully_paused

unfoldable pub _policy_gate : Storage → PolicyAction → Result (Unit {0})
unfolding _current_mode is_blocked
_policy_gate s action = if is_blocked action (_current_mode s) then err contract_paused else ok tt

unfoldable pub _ensure_not_paused : Storage → Result (Unit {0})
_ensure_not_paused s = _policy_gate s admin_config

unfoldable pub _ensure_normal_mode : Storage → Result (Unit {0})
_ensure_normal_mode s = _policy_gate s round_mutation

unfoldable pub _set_mode : Storage → RuntimeMode → Storage
_set_mode s new_mode =
    if not (mode_eq (unwrap_or s.paused normal) new_mode)
    then record s { paused = some new_mode }
    else s

-- The opening of an entry point that only the administrator may call: it reads the administrator's
-- address and takes the signature.
unfoldable pub admin_auth : Env → Storage → Result ℕ
admin_auth env s = do admin ← ok_or s.admin admin_not_set; require_auth env admin; ok admin
