-- ===== src/Contract/CashOut/Exit.antt =====
-- `cash_out_early` of contracts/src/betting.rs moves a stake and loses none of it.
use xelma_blockchain.Prelude.{ℕ, ◌≤◌, ◌<◌, ◌≡◌, refl, sym, ap, ◌∙◌, subst, none, some, arith}
use xelma_blockchain.Int.{ℤ, pos, ◌+ℤ◌}
use xelma_blockchain.Errors
use xelma_blockchain.Errors.{
  ok, Result, Ensures, Ensures-ok, Ensures-bind, Ensures-if, Ensures-ok_or,
}
use xelma_blockchain.Contract.State.{
  Env, require_auth, remove_in_round, Storage, Round, up_down, UserPosition, unwrap_or, remove,
}
use xelma_blockchain.Contract.Admin.{_require_supported_schema, _ensure_normal_mode}
use xelma_blockchain.Contract.AccessControl.{_enforce_access_control}
use xelma_blockchain.Contract.Balances.{balance, pending_of}
use xelma_blockchain.Contract.Fees.{get_insurance_fund_balance}
use xelma_blockchain.Contract.Fees.Collection.{treasury_amount, protocol_funds}
use xelma_blockchain.Contract.Betting.{require_mode}
use xelma_blockchain.Contract.CashOut.{
  split_stake, pay_out, take_from_pool, enabled_penalty, require_running, cashable_position,
  cash_out_early, write_round, remove_position, _persist_user_outcome, cashout_outcome,
}
use xelma_blockchain.Contract.CashOut.PayOut.{PaidOut, pay_out-PaidOut}
use xelma_blockchain.Contract.CashOut.Payments.{Shares, split_stake-Shares}
use xelma_blockchain.Contract.CashOut.Checks.{
  PoolShrunk, Exited, take_from_pool-PoolShrunk, require_running-Ensures, enabled_penalty-Ensures,
  cashable_position-Ensures, outcome-keeps,
}

module _ (env : Env) (user : ℕ) (s : Storage) (round round' : Round) (position : UserPosition)
    (forfeit cashout : ℤ) (s' : Storage) (g : PoolShrunk position.side position.amount round round')
    (p : PaidOut user forfeit cashout (write_round round' s) s') where
  abbrev settled : Storage
  settled = _persist_user_outcome round'.round_id (cashout_outcome user position cashout) s'

  abbrev left_storage : Storage
  left_storage = remove_position round'.round_id user settled

  left-pending : (v : ℕ) → pending_of left_storage v ≡ pending_of s' v
  unfolding pending_of
  left-pending v =
      ap (λ f. unwrap_or (f.pending_winnings v) (pos 0))
        (outcome-keeps _ (cashout_outcome user position cashout) s').0

  left-balance : (v : ℕ) → balance left_storage v ≡ balance s' v
  unfolding balance
  left-balance v =
      ap (λ f. unwrap_or (f.balance v) (pos 0))
        (outcome-keeps _ (cashout_outcome user position cashout) s').0

  left-protocol : protocol_funds left_storage ≡ protocol_funds s'
  unfolding get_insurance_fund_balance
  left-protocol =
      ap (λ f. treasury_amount f.protocol_fee_treasury +ℤ unwrap_or f.insurance_fund (pos 0))
        (outcome-keeps _ (cashout_outcome user position cashout) s').0

  left-active : left_storage.rounds.active_round ≡ some round'
  left-active =
      (outcome-keeps _ (cashout_outcome user position cashout) s').1
      ∙ ap (λ r. r.active_round) p.keeps_rounds

  left-position : left_storage.rounds.position round.round_id user ≡ none
  unfolding remove_in_round remove
  left-position = grind (arith, g.keeps_id)

  same_money :
      (v : ℕ)
      → (pending_of (write_round round' s) v ≡ pending_of s v)
        × (balance (write_round round' s) v ≡ balance s v)
        × (protocol_funds (write_round round' s) ≡ protocol_funds s)
  unfolding pending_of balance get_insurance_fund_balance
  same_money v = (refl, refl, refl)

exited :
    (env : Env) (user : ℕ) (s : Storage) (round round' : Round) (position : UserPosition)
    (forfeit cashout : ℤ) (s' : Storage) (g : PoolShrunk position.side position.amount round round')
    (p : PaidOut user forfeit cashout (write_round round' s) s')
    → s.rounds.active_round ≡ some round
    → (round.bet_end_ledger ≤ env.sequence) × (env.sequence < round.end_ledger)
    → s.rounds.position round.round_id user ≡ some position
    → Shares position.amount (forfeit, cashout)
    → Exited env user s (left_storage env user s round round' position forfeit cashout s' g p)
unfolding pending_of get_insurance_fund_balance balance
exited env user s round round' position forfeit cashout s' g p active runs had sh = record {
  round = round;
  round' = round';
  position = position;
  forfeit = forfeit;
  cashout = cashout;
  was_active = active;
  is_active = left-active env user s round round' position forfeit cashout s' g p;
  running = runs;
  had = had;
  has_left = left-position env user s round round' position forfeit cashout s' g p;
  shares = sh;
  shrunk = g;
  pays = left-pending env user s round round' position forfeit cashout s' g p user ∙ p.pays;
  collects = left-protocol env user s round round' position forfeit cashout s' g p ∙ p.collects;
  keeps_pending = λ v ne.
      left-pending env user s round round' position forfeit cashout s' g p v ∙ p.keeps_pending v ne;
  keeps_balances = λ v.
      left-balance env user s round round' position forfeit cashout s' g p v ∙ p.keeps_balances v;
}

cash_out_early-Exited :
    (env : Env) (user : ℕ) (s : Storage) → Ensures (Exited env user s) (cash_out_early env user s)
unfolding cash_out_early
cash_out_early-Exited env user s = Ensures-bind _ (_require_supported_schema s) _ (λ v e1.
    Ensures-bind _ (require_auth env user) _ (λ t1 e2.
      Ensures-bind _ (_ensure_normal_mode s) _ (λ t2 e3.
        Ensures-bind _ (_enforce_access_control s user) _ (λ t3 e4.
          Ensures-bind _ (enabled_penalty s) _ (λ penalty rate.
            Ensures-ok_or _ s.rounds.active_round _ _ (λ round active.
              Ensures-bind _ (require_mode up_down round Errors.wrong_mode_for_cashout) _ (λ t5 e5.
                Ensures-bind _ (require_running env round) _ (λ t6 runs.
                  Ensures-bind _ (cashable_position s round.round_id user) _ (λ position found.
                    Ensures-bind _ (split_stake position.amount penalty) _
                      (λ (forfeit, cashout) split.
                        Ensures-bind _ (take_from_pool position.side position.amount round) _
                          (λ round' shrunk.
                            Ensures-bind _ (pay_out env user forfeit cashout (write_round round' s))
                              _
                              (λ s' paid.
                                let (had, positive) =
                                  Ensures-ok _ _ (cashable_position-Ensures s round.round_id user)
                                    found in
                                let (n, amount) = positive in
                                let sh =
                                  Ensures-ok (Shares position.amount) _
                                    (subst (λ a. Ensures (Shares a) (split_stake a penalty))
                                      (sym amount)
                                      (split_stake-Shares n penalty
                                        (Ensures-ok _ _ (enabled_penalty-Ensures s) rate)))
                                    split in
                                let g =
                                  Ensures-ok _ _
                                    (take_from_pool-PoolShrunk position.side position.amount round)
                                    shrunk in
                                let p =
                                  Ensures-ok _ _
                                    (pay_out-PaidOut env user forfeit cashout (write_round round' s)
                                      sh.1 sh.2)
                                    paid in
                                exited env user s round round' position forfeit cashout s' g p
                                  active (Ensures-ok _ _ (require_running-Ensures env round) runs)
                                  had sh))))))))))))

-- An early cash-out that is accepted comes between the last betting ledger and the end of the active
-- round and removes the user's position. Its stake is split into what is forfeited and what is paid
-- back, neither negative; the stake leaves its side's pool, the first part goes to the treasury and the
-- insurance fund, the second to the user's pending winnings; the other pool, every balance and everybody
-- else's pending winnings stay.
pub cash_out_early-conserves :
    (env : Env) (user : ℕ) (s : Storage) {s' : Storage}
    → cash_out_early env user s ≡ ok s'
    → Exited env user s s'
cash_out_early-conserves env user s h = Ensures-ok _ _ (cash_out_early-Exited env user s) h
