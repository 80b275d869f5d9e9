-- ===== src/Contract/CashOut/PayOut.antt =====
-- What the payments of an early cash-out (contracts/src/betting.rs) move.
use xelma_blockchain.Prelude.{ℕ, ◌≡◌, ◌≢◌, refl, ap, ◌∙◌, subst, false, arith, if◌then◌else◌}
use xelma_blockchain.Int.{ℤ, pos, ◌+ℤ◌, ◌≤ℤ◌, ltb_ℤ, int_laws}
use xelma_blockchain.Errors.{
  ok, Ensures, Ensures-ok, Ensures-bind, Ensures-if, Ensures-both, Ensures-weaken,
}
use xelma_blockchain.Contract.State.{Env, Storage, unwrap_or}
use xelma_blockchain.Contract.Balances.{balance, pending_of, _accumulate_pending}
use xelma_blockchain.Contract.Fees.{_collect_protocol_fee}
use xelma_blockchain.Contract.Fees.Collection.{
  protocol_funds, Collects, _collect_protocol_fee-Collects,
}
use xelma_blockchain.Contract.CashOut.{pay_out}
use xelma_blockchain.Contract.CashOut.Payments.{
  Accumulated, _accumulate_pending-Accumulated, Apart, Apart-refl, _collect_protocol_fee-Apart,
}

add_zero : (a : ℤ) → a ≡ a +ℤ pos 0
add_zero a = omega int_laws

nothing-Accumulated : (user : ℕ) (s : Storage) → Accumulated user (pos 0) s s
nothing-Accumulated user s = record {
  adds = add_zero (pending_of s user);
  keeps_pending = λ v ne. refl;
  keeps_balances = λ v. refl;
  keeps_protocol = refl;
  keeps_rounds = refl;
}

zero_of : (a : ℤ) → pos 0 ≤ℤ a → ltb_ℤ (pos 0) a ≡ false → pos 0 ≡ a
zero_of a h k = ground arith

accumulate_if_positive :
    (env : Env) (user : ℕ) (cashout : ℤ) (s : Storage)
    → pos 0 ≤ℤ cashout
    → Ensures
        (Accumulated user cashout s)
        (if ltb_ℤ (pos 0) cashout then _accumulate_pending env user cashout s else ok s)
accumulate_if_positive env user cashout s h =
    Ensures-if _ (ltb_ℤ (pos 0) cashout) _ _
      (λ e. _accumulate_pending-Accumulated env user cashout s)
      (λ e. subst (λ a. Accumulated user a s s) (zero_of cashout h e) (nothing-Accumulated user s))

-- What the payments of a cash-out move.
pub record PaidOut (user : ℕ) (forfeit cashout : ℤ) (s s' : Storage) : Type 0 where
  pub pays : pending_of s' user ≡ pending_of s user +ℤ cashout
  pub collects : protocol_funds s' ≡ protocol_funds s +ℤ forfeit
  pub keeps_pending : (v : ℕ) → v ≢ user → pending_of s' v ≡ pending_of s v
  pub keeps_balances : (v : ℕ) → balance s' v ≡ balance s v
  pub keeps_rounds : s'.rounds ≡ s.rounds

Apart-PaidOut :
    (user : ℕ) (forfeit cashout : ℤ) (s s1 s2 : Storage)
    → Accumulated user cashout s s1
    → Collects forfeit s1 s2
    → Apart s1 s2
    → PaidOut user forfeit cashout s s2
unfolding pending_of balance
Apart-PaidOut user forfeit cashout s s1 s2 a c p = record {
  pays = ap (λ m. unwrap_or (m user) (pos 0)) p.same_pending ∙ a.adds;
  collects = c ∙ ap (λ x. x +ℤ forfeit) a.keeps_protocol;
  keeps_pending = λ v ne. ap (λ m. unwrap_or (m v) (pos 0)) p.same_pending ∙ a.keeps_pending v ne;
  keeps_balances = λ v. ap (λ m. unwrap_or (m v) (pos 0)) p.same_balances ∙ a.keeps_balances v;
  keeps_rounds = p.same_rounds ∙ a.keeps_rounds;
}

nothing-Collects :
    (fee : ℤ) (s : Storage) → pos 0 ≤ℤ fee → ltb_ℤ (pos 0) fee ≡ false → Collects fee s s
nothing-Collects fee s h e =
    subst (λ a. Collects a s s) (zero_of fee h e) (add_zero (protocol_funds s))

collect_if_positive :
    (fee : ℤ) (s : Storage)
    → pos 0 ≤ℤ fee
    → Ensures
        (λ s'. Collects fee s s' × Apart s s')
        (if ltb_ℤ (pos 0) fee then _collect_protocol_fee fee s else ok s)
collect_if_positive fee s h =
    Ensures-if _ (ltb_ℤ (pos 0) fee) _ _
      (λ e.
        Ensures-both _ _ (_collect_protocol_fee fee s) (_collect_protocol_fee-Collects fee s h)
          (_collect_protocol_fee-Apart fee s))
      (λ e. (nothing-Collects fee s h e, Apart-refl s))

pub pay_out-PaidOut :
    (env : Env) (user : ℕ) (forfeit cashout : ℤ) (s : Storage)
    → pos 0 ≤ℤ forfeit
    → pos 0 ≤ℤ cashout
    → Ensures (PaidOut user forfeit cashout s) (pay_out env user forfeit cashout s)
unfolding pay_out
pay_out-PaidOut env user forfeit cashout s hf hc =
    Ensures-bind _ (if ltb_ℤ (pos 0) cashout then _accumulate_pending env user cashout s else ok s)
      _
      (λ s1 e1.
        Ensures-weaken (if ltb_ℤ (pos 0) forfeit then _collect_protocol_fee forfeit s1 else ok s1)
          (λ s2 (c, p).
            Apart-PaidOut user forfeit cashout s s1 s2
              (Ensures-ok _ _ (accumulate_if_positive env user cashout s hc) e1) c p)
          (collect_if_positive forfeit s1 hf))
