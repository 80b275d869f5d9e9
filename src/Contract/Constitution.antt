-- ===== src/Contract/Constitution.antt =====
-- The constitution and its amendments, of contracts/src/governance.rs. A parameter's name and its new value are ℕ:
-- nothing reads them.
pub mod Activation
use xelma_blockchain.Prelude.{
  ℕ, suc, ◌+◌, Bool, true, false, ◌&&◌, not, Option, none, some, ltb, leb, if◌then◌else◌,
}
use xelma_blockchain.Machine.{u32_mod, u64_mod, saturate_u, checked_u}
use xelma_blockchain.Errors.{
  Result, ok, err, ok_or, or_panic, ◌>>=◌, ◌>>◌, already_initialized, gov_unauthorized,
  gov_invalid_state, proposal_not_found,
}
use xelma_blockchain.Contract.State.{
  Env, put, unwrap_or, is_some, Storage, ConstitutionMetadata, Amendment, AmendmentStatus,
}
use xelma_blockchain.Contract.Admin.{_require_supported_schema, admin_auth}
use xelma_blockchain.Contract.Governance.{with_governance, gov_auth, _is_authorized_gov_user}

abbrev pub is_pending : AmendmentStatus → Bool
is_pending AmendmentStatus.pending = true
is_pending AmendmentStatus.vetoed = false
is_pending AmendmentStatus.activation_ready = false
is_pending AmendmentStatus.activated = false
is_pending AmendmentStatus.expired = false

unfoldable pub establish_constitution : Env → ℕ → ℕ → Bool → Storage → Result Storage
establish_constitution env veto_window_ledgers timelock_ledgers dual_approval_required s = do
  _v ← _require_supported_schema s
  _admin ← admin_auth env s
  if is_some s.governance.constitution
      then err already_initialized
      else ok (
          with_governance s (record s.governance {
            constitution = some (record {
              veto_window_ledgers = veto_window_ledgers;
              timelock_ledgers = timelock_ledgers;
              dual_approval_required = dual_approval_required;
              established_at_ledger = env.sequence;
            });
          }))

-- The checks that the three calls on amendments open with.
unfoldable pub amendment_auth : Env → ℕ → Storage → Result (Unit {0})
amendment_auth env user s = do
  gov_auth env user s
  if _is_authorized_gov_user s user then ok tt else err gov_unauthorized

abbrev pub write_amendment : ℕ → Amendment → Storage → Storage
write_amendment amendment_id amendment s =
    with_governance s
      (record s.governance { amendments = put s.governance.amendments amendment_id amendment })

-- The deadlines: of the veto, and of the activation after it.
abbrev pub deadlines : Env → ConstitutionMetadata → ℕ × ℕ
deadlines env constitution =
    let veto_deadline = saturate_u u32_mod (env.sequence + constitution.veto_window_ledgers) in
    (veto_deadline, saturate_u u32_mod (veto_deadline + constitution.timelock_ledgers))

unfoldable pub propose_amendment : Env → ℕ → ℕ → ℕ → Storage → Result (ℕ × Storage)
propose_amendment env proposer parameter_name new_value s = do
  amendment_auth env proposer s
  constitution ← ok_or s.governance.constitution gov_invalid_state
  let amendment_id = unwrap_or s.governance.next_amendment_id 1
  next_id ← or_panic (checked_u u64_mod (suc amendment_id))
  let s' = with_governance s (record s.governance { next_amendment_id = some next_id })
  let (veto_deadline, activation_deadline) = deadlines env constitution
  ok (
    amendment_id,
    write_amendment amendment_id
        (record {
          id = amendment_id;
          proposer = proposer;
          parameter_name = parameter_name;
          new_value = new_value;
          created_at_ledger = env.sequence;
          veto_deadline_ledger = veto_deadline;
          activation_deadline_ledger = activation_deadline;
          status = AmendmentStatus.pending;
        })
        s',
  )

unfoldable pub veto_amendment : Env → ℕ → ℕ → Storage → Result Storage
veto_amendment env vetoer amendment_id s = do
  amendment_auth env vetoer s
  amendment ← ok_or (s.governance.amendments amendment_id) proposal_not_found
  if ltb amendment.veto_deadline_ledger env.sequence
      then err gov_invalid_state
      else if not (is_pending amendment.status)
      then err gov_invalid_state
      else ok
          (write_amendment amendment_id (record amendment { status = AmendmentStatus.vetoed }) s)

unfoldable pub activate_amendment : Env → ℕ → ℕ → Storage → Result Storage
activate_amendment env activator amendment_id s = do
  amendment_auth env activator s
  amendment ← ok_or (s.governance.amendments amendment_id) proposal_not_found
  if leb env.sequence amendment.activation_deadline_ledger
      then err gov_invalid_state
      else if not (is_pending amendment.status)
      then err gov_invalid_state
      else ok
          (write_amendment amendment_id (record amendment { status = AmendmentStatus.activated }) s)

-- The read of an amendment that is there: it marks one that is pending after its deadline.
abbrev pub expire_if_late : Env → ℕ → Amendment → Storage → Amendment × Storage
expire_if_late env amendment_id amendment s =
    let expired = record amendment { status = AmendmentStatus.expired } in
    if is_pending amendment.status && ltb amendment.activation_deadline_ledger env.sequence
    then (expired, write_amendment amendment_id expired s)
    else (amendment, s)

abbrev pub read_amendment : Env → ℕ → Option Amendment → Storage → Option Amendment × Storage
read_amendment env amendment_id none s = (none, s)
read_amendment env amendment_id (some amendment) s =
    let (read, s') = expire_if_late env amendment_id amendment s in (some read, s')

unfoldable pub get_amendment : Env → ℕ → Storage → Option Amendment × Storage
get_amendment env amendment_id s =
    read_amendment env amendment_id (s.governance.amendments amendment_id) s
