-- ===== src/Contract/Settlement/Payments.antt =====
-- What the loops of contracts/src/settlement.rs over the participants of a round pay.
use xelma_blockchain.Prelude.{
  ℕ, ◌≡◌, inl, inr, refl, sym, ap, ◌∙◌, Option, List, [], ◌∷◌, arith, ◌==◌, if◌then◌else◌, eq-cases,
}
use xelma_blockchain.Int.{ℤ, pos, ◌+ℤ◌, sum_ℤ, int_laws}
use xelma_blockchain.Contract.State.{Map, Storage, UserPosition, UserRoundOutcome, unwrap_or}
use xelma_blockchain.Contract.Balances.{balance, pending_of}
use xelma_blockchain.Contract.Fees.{get_insurance_fund_balance}
use xelma_blockchain.Contract.Fees.Collection.{treasury_amount, protocol_funds}
use xelma_blockchain.Contract.CashOut.{_persist_user_outcome}
use xelma_blockchain.Contract.CashOut.Payments.{Accumulated}

-- What a user is owed when a position is worth so much: once for each time that the list names the
-- user.
abbrev pub due : (Option UserPosition → ℤ) → Map UserPosition → List ℕ → ℕ → ℤ
due worth m users v = sum_ℤ (λ u. if u == v then worth (m u) else pos 0) users

-- Each user's pending winnings grow by what is due, and nothing else moves.
pub record Paid (owed : ℕ → ℤ) (s s' : Storage) : Type 0 where
  pub pays : (v : ℕ) → pending_of s' v ≡ pending_of s v +ℤ owed v
  pub keeps_balances : (v : ℕ) → balance s' v ≡ balance s v
  pub keeps_protocol : protocol_funds s' ≡ protocol_funds s
  pub keeps_positions : s'.rounds.position ≡ s.rounds.position

outcome-keeps :
    (round_id : ℕ) (o : UserRoundOutcome) (s : Storage)
    → ((_persist_user_outcome round_id o s).funds ≡ s.funds)
      × ((_persist_user_outcome round_id o s).rounds.position ≡ s.rounds.position)
unfolding _persist_user_outcome
outcome-keeps round_id o s = ground arith

add_zero : (a : ℤ) → a ≡ a +ℤ pos 0
add_zero a = omega int_laws

pub nothing-Paid : (user : ℕ) (s : Storage) → Paid (λ v. if user == v then pos 0 else pos 0) s s
nothing-Paid user s = record {
  pays = λ v. ground (arith, add_zero (pending_of s v));
  keeps_balances = λ v. refl;
  keeps_protocol = refl;
  keeps_positions = refl;
}

pub Accumulated-pays :
    (user : ℕ) (amount : ℤ) (s s' : Storage) (v : ℕ)
    → Accumulated user amount s s'
    → pending_of s' v ≡ pending_of s v +ℤ (if user == v then amount else pos 0)
Accumulated-pays user amount s s' v a = elim (eq-cases user v) [
  | inl e ↦ ground (arith, a.adds)
  | inr ne ↦ a.keeps_pending v (λ e. ne (sym e)) ∙ ground (arith, add_zero (pending_of s v))
]

pub recorded-Paid :
    (user round_id : ℕ) (amount : ℤ) (o : UserRoundOutcome) (s s' : Storage)
    → Accumulated user amount s s'
    → Paid (λ v. if user == v then amount else pos 0) s (_persist_user_outcome round_id o s')
unfolding pending_of balance get_insurance_fund_balance
recorded-Paid user round_id amount o s s' a =
    let (funds, positions) = outcome-keeps round_id o s' in
    record {
      pays = λ v.
          ap (λ f. unwrap_or (f.pending_winnings v) (pos 0)) funds
          ∙ Accumulated-pays user amount s s' v a;
      keeps_balances = λ v. ap (λ f. unwrap_or (f.balance v) (pos 0)) funds ∙ a.keeps_balances v;
      keeps_protocol =
          ap (λ f. treasury_amount f.protocol_fee_treasury +ℤ unwrap_or f.insurance_fund (pos 0))
            funds
          ∙ a.keeps_protocol;
      keeps_positions = positions ∙ ap (λ r. r.position) a.keeps_rounds;
    }

regroup : (a b c : ℤ) → a +ℤ b +ℤ c ≡ a +ℤ (b +ℤ c)
regroup a b c = omega int_laws

pub then-Paid :
    (worth : Option UserPosition → ℤ) (round_id user : ℕ) (users : List ℕ) (s s1 s2 : Storage)
    → Paid (λ v. if user == v then worth (s.rounds.position round_id user) else pos 0) s s1
    → Paid (due worth (s1.rounds.position round_id) users) s1 s2
    → Paid (due worth (s.rounds.position round_id) (user ∷ users)) s s2
then-Paid worth round_id user users s s1 s2 a b = record {
  pays = λ v.
      b.pays v
      ∙ (ap (λ m. pending_of s1 v +ℤ due worth (m round_id) users v) a.keeps_positions
          ∙ (ap (λ x. x +ℤ due worth (s.rounds.position round_id) users v) (a.pays v)
              ∙ regroup (pending_of s v) _ _));
  keeps_balances = λ v. b.keeps_balances v ∙ a.keeps_balances v;
  keeps_protocol = b.keeps_protocol ∙ a.keeps_protocol;
  keeps_positions = b.keeps_positions ∙ a.keeps_positions;
}

pub none-Paid :
    (worth : Option UserPosition → ℤ) (m : Map UserPosition) (s : Storage)
    → Paid (due worth m []) s s
none-Paid worth m s = record {
  pays = λ v. add_zero (pending_of s v);
  keeps_balances = λ v. refl;
  keeps_protocol = refl;
  keeps_positions = refl;
}
