-- ===== src/Contract/Claims.antt =====
-- Claims of contracts/src/settlement.rs (`claim_winnings`, `claim_many`) and the reclaim of expired
-- winnings of contracts/src/admin.rs. A call that fails leaves no write, so it returns no storage.
pub mod Wealth
pub mod Batch
use xelma_blockchain.Prelude.{
  ℕ, suc, ◌-◌, Bool, true, false, ◌||◌, Option, none, some, List, [], ◌∷◌, length, ltb, ◌==◌,
  if◌then◌else◌,
}
use xelma_blockchain.Int.{ℤ, pos, eqb_ℤ}
use xelma_blockchain.Errors.{
  Result, ok, err, ok_or, ◌>>=◌, ◌>>◌, claim_batch_too_large, duplicate_claim_address,
  expiry_not_configured, pending_winnings_not_found, pending_winnings_not_expired,
}
use xelma_blockchain.SettlementMath.Common.{payout_add}
use xelma_blockchain.Contract.State.{Env, require_auth, put, remove, unwrap_or, Storage, Funds}
use xelma_blockchain.Contract.Admin.{_require_supported_schema, _ensure_not_paused, admin_auth}
use xelma_blockchain.Contract.Balances.{
  balance, _set_balance, pending_of, with_funds, sort_addresses,
}

-- `remove` of the pending winnings and of the ledger they were last written at.
unfoldable pub clear_pending : Storage → ℕ → Storage
clear_pending s user = with_funds s (record s.funds {
  pending_winnings = remove s.funds.pending_winnings user;
  pending_updated_at = remove s.funds.pending_updated_at user;
})

-- From the read of the pending winnings on, as in both claims: the amount claimed.
unfoldable pub claim_pending : ℕ → Storage → Result (ℤ × Storage)
claim_pending user s =
    let pending_amount = pending_of s user in
    if eqb_ℤ pending_amount (pos 0) then ok (pos 0, s) else (do
      new_balance ← payout_add (balance s user) pending_amount
      ok (pending_amount, _set_balance (clear_pending s user) user new_balance))

unfoldable pub claim_winnings : Env → ℕ → Storage → Result (ℤ × Storage)
claim_winnings env user s = do
  _v ← _require_supported_schema s
  require_auth env user
  _ensure_not_paused s
  claim_pending user s

abbrev pub max_claim_batch_size : ℕ
max_claim_batch_size = 50

-- Two neighbours are equal.
unfoldable pub has_repeat : List ℕ → Bool
has_repeat [] = false
has_repeat (a ∷ []) = false
has_repeat (a ∷ b ∷ rest) = a == b || has_repeat (b ∷ rest)

-- The loop over the users.
unfoldable pub claim_each : Env → List ℕ → Storage → Result (List ℤ × Storage)
claim_each env [] s = ok ([], s)
claim_each env (user ∷ users) s = do
  require_auth env user
  (amount, s') ← claim_pending user s
  (amounts, s'') ← claim_each env users s'
  ok (amount ∷ amounts, s'')

unfoldable pub claim_many : Env → List ℕ → Storage → Result (List ℤ × Storage)
claim_many env users s = do
  _v ← _require_supported_schema s
  _ensure_not_paused s
  if ltb max_claim_batch_size (length users)
      then err claim_batch_too_large
      else if has_repeat (sort_addresses users)
      then err duplicate_claim_address
      else claim_each env users s

-- The checks of the reclaim on the amount and its age.
unfoldable pub reclaim_checks : Env → ℕ → Storage → Result (Unit {0})
reclaim_checks env user s =
    let expiry_ledgers = unwrap_or s.config.pending_winnings_expiry 0 in
    if expiry_ledgers == 0
    then err expiry_not_configured
    else if eqb_ℤ (pending_of s user) (pos 0)
    then err pending_winnings_not_found
    else (do
      updated_at ← ok_or (s.funds.pending_updated_at user) pending_winnings_not_found
      if ltb (env.sequence - updated_at) expiry_ledgers
          then err pending_winnings_not_expired
          else ok tt)

unfoldable pub reclaim_expired_pending_winnings : Env → ℕ → Storage → Result (ℤ × Storage)
reclaim_expired_pending_winnings env user s = do
  _v ← _require_supported_schema s
  admin ← admin_auth env s
  _ensure_not_paused s
  reclaim_checks env user s
  let cleared = clear_pending s user
  new_admin_bal ← payout_add (balance cleared admin) (pending_of s user)
  ok (pending_of s user, _set_balance cleared admin new_admin_bal)
