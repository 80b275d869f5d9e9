-- ===== src/Contract/Claims/Wealth.antt =====
-- What the claims of contracts/src/settlement.rs move: pending winnings become balance.
use xelma_blockchain.Prelude.{ℕ, ◌≡◌, ◌≢◌, refl, sym, arith, ◌==◌, if◌then◌else◌}
use xelma_blockchain.Int.{ℤ, pos, ◌+ℤ◌, int_laws, eqb_ℤ, eqb_ℤ-true}
use xelma_blockchain.Machine.{checked_add}
use xelma_blockchain.Machine.Laws.{checked_add-eq-some}
use xelma_blockchain.Errors.{
  ok, Ensures, Ensures-ok, Ensures-bind, Ensures-weaken, Ensures-if, Ensures-ok_or,
}
use xelma_blockchain.SettlementMath.Common.{payout_add}
use xelma_blockchain.Contract.State.{Env, require_auth, put, remove, Storage}
use xelma_blockchain.Contract.Admin.{_require_supported_schema, _ensure_not_paused, _policy_gate}
use xelma_blockchain.Contract.Balances.{balance, pending_of, _set_balance}
use xelma_blockchain.Contract.Claims.{claim_pending, claim_winnings, clear_pending}

-- A user's money in the contract, outside the open round.
abbrev pub wealth : Storage → ℕ → ℤ
wealth s user = balance s user +ℤ pending_of s user

module _ (s : Storage) (user : ℕ) (amount : ℤ) where
  abbrev claimed_storage : Storage
  claimed_storage = _set_balance (clear_pending s user) user amount

  pending-claimed :
      (v : ℕ) → pending_of claimed_storage v ≡ (if v == user then pos 0 else pending_of s v)
  unfolding pending_of _set_balance clear_pending remove
  pending-claimed v = ground arith

  balance-claimed :
      (v : ℕ) → balance claimed_storage v ≡ (if v == user then amount else balance s v)
  unfolding balance _set_balance clear_pending put
  balance-claimed v = ground arith

-- The claim of one user: the amount, the winnings gone, everybody's money kept.
pub record Claimed (user : ℕ) (s : Storage) (amount : ℤ) (s' : Storage) : Type 0 where
  pub pays : amount ≡ pending_of s user
  pub clears : pending_of s' user ≡ pos 0
  pub keeps_wealth : (v : ℕ) → wealth s' v ≡ wealth s v
  pub keeps_pending : (v : ℕ) → v ≢ user → pending_of s' v ≡ pending_of s v

add_zero : (a : ℤ) → a +ℤ pos 0 ≡ a
add_zero a = omega int_laws

nothing-Claimed : (user : ℕ) (s : Storage) → pending_of s user ≡ pos 0 → Claimed user s (pos 0) s
nothing-Claimed user s h = record {
  pays = sym h;
  clears = h;
  keeps_wealth = λ v. refl;
  keeps_pending = λ v ne. refl;
}

moved :
    (s : Storage) (user v : ℕ)
    → wealth (claimed_storage s user (balance s user +ℤ pending_of s user)) v ≡ wealth s v
moved s user v =
    rw (pending-claimed s user _ v, balance-claimed s user _ v)
      (ground (arith, add_zero (balance s user +ℤ pending_of s user)))

paid-Claimed :
    (user : ℕ) (s : Storage) (new_balance : ℤ)
    → new_balance ≡ balance s user +ℤ pending_of s user
    → Claimed user s (pending_of s user) (claimed_storage s user new_balance)
paid-Claimed user s new_balance h = record {
  pays = refl;
  clears = rw (pending-claimed s user new_balance user) (ground arith);
  keeps_wealth = λ v. rw h (moved s user v);
  keeps_pending = λ v ne. rw (pending-claimed s user new_balance v) (ground arith);
}

pub claim_pending-Claimed :
    (user : ℕ) (s : Storage)
    → Ensures (λ (amount, s'). Claimed user s amount s') (claim_pending user s)
unfolding claim_pending payout_add
claim_pending-Claimed user s =
    Ensures-if _ (eqb_ℤ (pending_of s user) (pos 0)) _ _
      (λ none_left. nothing-Claimed user s (eqb_ℤ-true _ _ none_left))
      (λ some_left.
        Ensures-ok_or _ (checked_add (balance s user) (pending_of s user)) _ _
          (λ new_balance sum. paid-Claimed user s new_balance (checked_add-eq-some _ _ sum)))

-- A claim that returns pays out exactly the user's pending winnings and clears them; it changes
-- nobody's balance and pending winnings taken together, and nobody else's pending winnings.
pub claim_winnings-Claimed :
    (env : Env) (user : ℕ) (s : Storage) {amount : ℤ} {s' : Storage}
    → claim_winnings env user s ≡ ok (amount, s')
    → Claimed user s amount s'
unfolding claim_winnings
claim_winnings-Claimed env user s h =
    Ensures-ok (λ (amount, s'). Claimed user s amount s') _
      (Ensures-bind _ (_require_supported_schema s) _ (λ v schema.
        Ensures-bind _ (require_auth env user) _ (λ t signed.
          Ensures-bind _ (_ensure_not_paused s) _ (λ t' open_gate. claim_pending-Claimed user s))))
      h

-- After a claim the gates answer as before, and there is nothing left to claim.
Again : Env → ℕ → Storage → ℤ × Storage → Type 0
Again env user s (amount, s') =
    (_require_supported_schema s' ≡ _require_supported_schema s)
    × (_ensure_not_paused s' ≡ _ensure_not_paused s)
    × (claim_pending user s' ≡ ok (pos 0, s'))

nothing_left :
    (user : ℕ) (s : Storage) → pending_of s user ≡ pos 0 → claim_pending user s ≡ ok (pos 0, s)
unfolding claim_pending
nothing_left user s h = rw h refl

paid-Again :
    (env : Env) (user : ℕ) (s : Storage) (new_balance : ℤ)
    → Again env user s (pending_of s user, claimed_storage s user new_balance)
unfolding Again _set_balance clear_pending _require_supported_schema _ensure_not_paused _policy_gate
paid-Again env user s new_balance =
    (refl, refl, nothing_left user _ (rw (pending-claimed s user new_balance user) (ground arith)))

still-Again :
    (env : Env) (user : ℕ) (s : Storage) → pending_of s user ≡ pos 0 → Again env user s (pos 0, s)
unfolding Again
still-Again env user s h = (refl, refl, nothing_left user s h)

claim_pending-Again :
    (env : Env) (user : ℕ) (s : Storage) → Ensures (Again env user s) (claim_pending user s)
unfolding claim_pending payout_add
claim_pending-Again env user s =
    Ensures-if _ (eqb_ℤ (pending_of s user) (pos 0)) _ _
      (λ none_left. still-Again env user s (eqb_ℤ-true _ _ none_left))
      (λ some_left.
        Ensures-ok_or _ (checked_add (balance s user) (pending_of s user)) _ _
          (λ new_balance sum. paid-Again env user s new_balance))

once-Ensures :
    (env : Env) (user : ℕ) (s : Storage)
    → Ensures
        (λ (amount, s'). claim_winnings env user s' ≡ ok (pos 0, s'))
        (claim_winnings env user s)
unfolding claim_winnings Again
once-Ensures env user s = Ensures-bind _ (_require_supported_schema s) _ (λ v schema.
    Ensures-bind _ (require_auth env user) _ (λ t signed.
      Ensures-bind _ (_ensure_not_paused s) _ (λ t' open_gate.
        Ensures-weaken (claim_pending user s)
          (λ (amount, s') (q, r, none_left). rw (q, schema, signed, r, open_gate, none_left) refl)
          (claim_pending-Again env user s))))

-- Claiming again in the same environment pays nothing and changes nothing.
pub claim_winnings-once :
    (env : Env) (user : ℕ) (s : Storage) {amount : ℤ} {s' : Storage}
    → claim_winnings env user s ≡ ok (amount, s')
    → claim_winnings env user s' ≡ ok (pos 0, s')
unfolding claim_winnings
claim_winnings-once env user s h = Ensures-ok _ _ (once-Ensures env user s) h
