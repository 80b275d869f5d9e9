-- ===== src/Contract/AccessControl.antt =====
-- contracts/src/access_control.rs: the allowlist, the denylist and the admission gate.
use xelma_blockchain.Prelude.{ℕ, Bool, true, false, not, ◌&&◌, none, some, if◌then◌else◌}
use xelma_blockchain.Errors.{Result, ok, err, ◌>>=◌, ◌>>◌, access_denied}
use xelma_blockchain.Contract.State.{Env, put, remove, is_some, unwrap_or, Storage, Access}
use xelma_blockchain.Contract.Admin.{_require_supported_schema, _ensure_not_paused, admin_auth}

-- The checks that the five mutations open with.
unfoldable pub admin_checks : Env → Storage → Result (Unit {0})
unfolding _require_supported_schema
admin_checks env s = do
  _v ← _require_supported_schema s
  _admin ← admin_auth env s
  _ensure_not_paused s

abbrev with_access : Storage → Access → Storage
with_access s access = record s { access = access }

unfoldable pub set_access_control_enabled : Env → Bool → Storage → Result Storage
set_access_control_enabled env enabled s = do
  admin_checks env s
  ok (with_access s (record s.access { enabled = if enabled then some true else none }))

unfoldable pub add_allowlisted : Env → ℕ → Storage → Result Storage
add_allowlisted env user s = do
  admin_checks env s
  let access = s.access
  ok (
      with_access s (record access {
        allowlisted = put access.allowlisted user true;
        denylisted = remove access.denylisted user;
      }))

unfoldable pub remove_allowlisted : Env → ℕ → Storage → Result Storage
remove_allowlisted env user s = do
  admin_checks env s
  let access = s.access
  if not (is_some (access.allowlisted user))
      then ok s
      else ok (with_access s (record access { allowlisted = remove access.allowlisted user }))

unfoldable pub add_denylisted : Env → ℕ → Storage → Result Storage
add_denylisted env user s = do
  admin_checks env s
  let access = s.access
  ok (
      with_access s (record access {
        denylisted = put access.denylisted user true;
        allowlisted = remove access.allowlisted user;
      }))

unfoldable pub remove_denylisted : Env → ℕ → Storage → Result Storage
remove_denylisted env user s = do
  admin_checks env s
  let access = s.access
  if not (is_some (access.denylisted user))
      then ok s
      else ok (with_access s (record access { denylisted = remove access.denylisted user }))

pub data AccessState : Type 0 where
  access_open access_allowlisted access_denylisted : AccessState

unfoldable pub get_access_state : Storage → ℕ → AccessState
get_access_state s user =
    if is_some (s.access.denylisted user)
    then access_denylisted
    else if is_some (s.access.allowlisted user)
    then access_allowlisted
    else access_open

unfoldable pub _enforce_access_control : Storage → ℕ → Result (Unit {0})
_enforce_access_control s user =
    if is_some (s.access.denylisted user)
    then err access_denied
    else if unwrap_or s.access.enabled false && not (is_some (s.access.allowlisted user))
    then err access_denied
    else ok tt
