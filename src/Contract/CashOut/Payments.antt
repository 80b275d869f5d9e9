-- ===== src/Contract/CashOut/Payments.antt =====
-- The payments of an early cash-out (contracts/src/betting.rs): `_accumulate_pending` of
-- contracts/src/common.rs and `_collect_protocol_fee` of contracts/src/config.rs.

use xelma_blockchain.Prelude.{ℕ, ◌*◌, ◌/◌, ◌-◌, ◌≤◌, ◌≡◌, ◌≢◌, refl, arith, ◌==◌, if◌then◌else◌}
use xelma_blockchain.Int.{ℤ, pos, min_ℤ, ◌+ℤ◌, ◌≤ℤ◌, leb_ℤ, pos-mul, pos-sub, pos-add}
use xelma_blockchain.Machine.{checked_sub, checked_add}
use xelma_blockchain.Machine.Laws.{checked_add-eq-some, checked_sub-eq-some, checked_mul-eq-some}
use xelma_blockchain.SettlementMath.Common.{payout_add}
use xelma_blockchain.Errors.{Ensures, Ensures-ok, Ensures-bind, Ensures-if, Ensures-ok_or}
use xelma_blockchain.Contract.State.{Env, put, Storage}
use xelma_blockchain.Contract.Balances.{balance, pending_of, exceeds_cap, _accumulate_pending}
use xelma_blockchain.Contract.Fees.{
  _collect_protocol_fee, collect_insurance_fee, credit_insurance_fund, read_treasury,
  write_treasury, write_insurance_fund, get_insurance_fund_balance,
}
use xelma_blockchain.Contract.Fees.Collection.{protocol_funds}
use xelma_blockchain.Contract.CashOut.{split_stake}

-- A payment into a user's pending winnings.
pub record Accumulated (user : ℕ) (amount : ℤ) (s s' : Storage) : Type 0 where
  pub adds : pending_of s' user ≡ pending_of s user +ℤ amount
  pub keeps_pending : (v : ℕ) → v ≢ user → pending_of s' v ≡ pending_of s v
  pub keeps_balances : (v : ℕ) → balance s' v ≡ balance s v
  pub keeps_protocol : protocol_funds s' ≡ protocol_funds s
  pub keeps_rounds : s'.rounds ≡ s.rounds

abbrev accumulated : Env → ℕ → ℤ → Storage → Storage
accumulated env user new_pending s = record s {
  funds = record s.funds {
    pending_winnings = put s.funds.pending_winnings user new_pending;
    pending_updated_at = put s.funds.pending_updated_at user env.sequence;
  };
}

pending-accumulated :
    (env : Env) (user : ℕ) (b : ℤ) (s : Storage) (v : ℕ)
    → pending_of (accumulated env user b s) v ≡ (if v == user then b else pending_of s v)
unfolding pending_of put
pending-accumulated env user b s v = ground arith

written-Accumulated :
    (env : Env) (user : ℕ) (amount b : ℤ) (s : Storage)
    → b ≡ pending_of s user +ℤ amount
    → Accumulated user amount s (accumulated env user b s)
unfolding balance get_insurance_fund_balance
written-Accumulated env user amount b s e = record {
  adds = rw (pending-accumulated env user b s user) (ground arith);
  keeps_pending = λ v ne. rw (pending-accumulated env user b s v) (ground arith);
  keeps_balances = λ v. refl;
  keeps_protocol = refl;
  keeps_rounds = refl;
}

pub _accumulate_pending-Accumulated :
    (env : Env) (user : ℕ) (amount : ℤ) (s : Storage)
    → Ensures (Accumulated user amount s) (_accumulate_pending env user amount s)
unfolding _accumulate_pending payout_add
_accumulate_pending-Accumulated env user amount s =
    Ensures-ok_or _ (checked_add (pending_of s user) amount) _ _ (λ b e.
      Ensures-if _ (exceeds_cap b s.config.max_pending_winnings) _ _ (λ h. tt)
        (λ h. written-Accumulated env user amount b s (checked_add-eq-some _ _ e)))

-- A fee's collection touches no user and no round.
pub record Apart (s s' : Storage) : Type 0 where
  pub same_pending : s'.funds.pending_winnings ≡ s.funds.pending_winnings
  pub same_balances : s'.funds.balance ≡ s.funds.balance
  pub same_rounds : s'.rounds ≡ s.rounds

pub Apart-refl : (s : Storage) → Apart s s
Apart-refl s = record { same_pending = refl; same_balances = refl; same_rounds = refl }

credit_insurance_fund-Apart :
    (part fee : ℤ) (s : Storage)
    → Ensures (λ (p, s'). Apart s s') (credit_insurance_fund part fee s)
unfolding credit_insurance_fund write_insurance_fund
credit_insurance_fund-Apart part fee s =
    Ensures-if _ (leb_ℤ part (pos 0)) _ _ (λ h. Apart-refl s)
      (λ h.
        Ensures-ok_or _ (checked_add (get_insurance_fund_balance s) (min_ℤ part fee)) _ _
          (λ b e. record { same_pending = refl; same_balances = refl; same_rounds = refl }))

collect_insurance_fee-Apart :
    (fee : ℤ) (s : Storage) → Ensures (λ (p, s'). Apart s s') (collect_insurance_fee fee s)
unfolding collect_insurance_fee
collect_insurance_fee-Apart fee s = grind (arith, Apart-refl s, credit_insurance_fund-Apart)

pub _collect_protocol_fee-Apart :
    (fee : ℤ) (s : Storage) → Ensures (Apart s) (_collect_protocol_fee fee s)
unfolding _collect_protocol_fee write_treasury
_collect_protocol_fee-Apart fee s =
    Ensures-if _ (leb_ℤ fee (pos 0)) _ _ (λ h. Apart-refl s)
      (λ h. Ensures-bind _ (collect_insurance_fee fee s) _ (λ (part, s') e.
        let a = Ensures-ok _ _ (collect_insurance_fee-Apart fee s) e in
        Ensures-ok_or _ (checked_sub fee part) _ _ (λ ops e'.
          Ensures-bind _ (read_treasury s') _ (λ current r.
            Ensures-ok_or _ (checked_add current ops) _ _ (λ b w. record {
              same_pending = a.same_pending;
              same_balances = a.same_balances;
              same_rounds = a.same_rounds;
            })))))

part-le : (stake penalty : ℕ) → penalty ≤ 10_000 → stake * penalty / 10_000 ≤ stake
part-le stake penalty h = grind arith

-- A positive stake is split into two amounts that are not negative.
abbrev pub Shares : ℤ → ℤ × ℤ → Type 0
Shares stake (forfeit, cashout) =
    (forfeit +ℤ cashout ≡ stake) × (pos 0 ≤ℤ forfeit) × (pos 0 ≤ℤ cashout)

shares : (n f : ℕ) → f ≤ n → Shares (pos n) (pos f, pos (n - f))
shares n f h = rw (pos-add f (n - f)) (ground arith)

pub split_stake-Shares :
    (n penalty : ℕ) → penalty ≤ 10_000 → Ensures (Shares (pos n)) (split_stake (pos n) penalty)
unfolding split_stake
split_stake-Shares n penalty h = grind (
  arith,
  checked_mul-eq-some,
  checked_sub-eq-some,
  pos-mul,
  pos-sub,
  part-le n penalty h,
  shares n (n * penalty / 10_000),
)
