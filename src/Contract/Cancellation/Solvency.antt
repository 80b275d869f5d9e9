-- ===== src/Contract/Cancellation/Solvency.antt =====
-- What a cancellation pays (`cancel_round` of contracts/src/settlement.rs): the stakes, and out of the insurance
-- fund no more than the fund gives.
use xelma_blockchain.Prelude.{
  ℕ, ◌≡◌, refl, sym, ap, ◌∙◌, Bool, true, false, not, ◌&&◌, ◌||◌, List, [], ◌∷◌, arith, All, sum_by,
}
use xelma_blockchain.Int.{ℤ, pos, pos_part, ◌+ℤ◌, ◌-ℤ◌, ◌≤ℤ◌, ltb_ℤ, leb_ℤ, min_ℤ, int_laws}
use xelma_blockchain.Machine.{checked_sub}
use xelma_blockchain.Machine.Laws.{checked_sub-eq-some}
use xelma_blockchain.Errors.{
  Ensures, Ensures-ok, Ensures-bind, Ensures-ok_or, Ensures-if, Ensures-weaken,
}
use xelma_blockchain.SettlementMath.Pot.{is_empty}
use xelma_blockchain.SettlementMath.Pot.Weighted.{total, IsStake}
use xelma_blockchain.Contract.State.{unwrap_or, Env, Storage}
use xelma_blockchain.Contract.Balances.{balance, pending_of}
use xelma_blockchain.Contract.Fees.{get_insurance_fund_balance, write_insurance_fund}
use xelma_blockchain.Contract.Fees.Collection.{treasury_amount, protocol_funds}
use xelma_blockchain.Contract.Insurance.Coverage.{deduct_insurance_coverage}
use xelma_blockchain.Contract.CashOut.Payments.{Apart, Apart-refl}
use xelma_blockchain.Contract.Settlement.Payments.{Paid}
use xelma_blockchain.Contract.PrecisionResolution.Awards.{unpaid-Paid, same-Paid}
use xelma_blockchain.Contract.Cancellation.{
  sum_coverage, cover_participants, cover_round, distribute_coverage,
}
use xelma_blockchain.Contract.Cancellation.Covering.{
  paid_to, coverages, distribute_coverage-Paid, coverages-le,
}

-- The fund gives what is not negative and leaves what it does not give.
record Deducted (drawn : ℤ) (s s' : Storage) : Type 0 where
  draws : get_insurance_fund_balance s ≡ get_insurance_fund_balance s' +ℤ drawn
  is_nonneg : pos 0 ≤ℤ drawn
  keeps_fund : pos 0 ≤ℤ get_insurance_fund_balance s → pos 0 ≤ℤ get_insurance_fund_balance s'
  keeps_treasury : s'.funds.protocol_fee_treasury ≡ s.funds.protocol_fee_treasury
  rest : Apart s s'

add_zero : (a : ℤ) → a ≡ a +ℤ pos 0
add_zero a = omega int_laws

Deducted-refl : (s : Storage) → Deducted (pos 0) s s
Deducted-refl s = record {
  draws = add_zero (get_insurance_fund_balance s);
  is_nonneg = omega arith;
  keeps_fund = λ h. h;
  keeps_treasury = refl;
  rest = Apart-refl s;
}

give_back : (f d : ℤ) → f ≡ (f -ℤ d) +ℤ d
give_back f d = omega int_laws

min-nonneg : (a f : ℤ) → (leb_ℤ a (pos 0) || leb_ℤ f (pos 0)) ≡ false → pos 0 ≤ℤ min_ℤ a f
min-nonneg a f h = ground arith

min-rest : (a f : ℤ) → pos 0 ≤ℤ (f -ℤ min_ℤ a f)
min-rest a f = grind int_laws

written-Deducted :
    (d b : ℤ) (s : Storage)
    → b ≡ get_insurance_fund_balance s -ℤ d
    → pos 0 ≤ℤ d
    → pos 0 ≤ℤ b
    → Deducted d s (write_insurance_fund s b)
unfolding write_insurance_fund get_insurance_fund_balance
written-Deducted d b s e nonneg rest = record {
  draws = rw e (give_back (unwrap_or s.funds.insurance_fund (pos 0)) d);
  is_nonneg = nonneg;
  keeps_fund = λ h. rest;
  keeps_treasury = refl;
  rest = record { same_pending = refl; same_balances = refl; same_rounds = refl };
}

deduct-Deducted :
    (requested : ℤ) (s : Storage)
    → Ensures (λ (d, s'). Deducted d s s') (deduct_insurance_coverage requested s)
unfolding deduct_insurance_coverage
deduct-Deducted requested s =
    let fund = get_insurance_fund_balance s in
    Ensures-if _ (leb_ℤ requested (pos 0) || leb_ℤ fund (pos 0)) _ _ (λ h. Deducted-refl s)
      (λ h. Ensures-ok_or _ (checked_sub fund (min_ℤ requested fund)) _ _ (λ b e.
        let is_rest = checked_sub-eq-some fund (min_ℤ requested fund) e in
        written-Deducted (min_ℤ requested fund) b s is_rest (min-nonneg requested fund h)
          (rw is_rest (min-rest requested fund))))

-- What the fund gives, and what the participants get of it.
pub record Covered (users : List ℕ) (s s' : Storage) : Type 0 where
  pub coverage : List ℤ
  pub drawn : ℤ
  pub pays : (v : ℕ) → pending_of s' v ≡ pending_of s v +ℤ paid_to users coverage v
  pub solvent : total coverage ≤ℤ drawn
  pub affordable : pos 0 ≤ℤ get_insurance_fund_balance s → drawn ≤ℤ get_insurance_fund_balance s
  pub draws : protocol_funds s ≡ protocol_funds s' +ℤ drawn
  pub keeps_balances : (v : ℕ) → balance s' v ≡ balance s v

affordable-of : (f f' d : ℤ) → f ≡ f' +ℤ d → (pos 0 ≤ℤ f → pos 0 ≤ℤ f') → pos 0 ≤ℤ f → d ≤ℤ f
affordable-of f f' d e keeps h = rw e (below f' d (keeps h))
  where
    below : (f' d : ℤ) → pos 0 ≤ℤ f' → d ≤ℤ (f' +ℤ d)
    below f' d h = omega int_laws

regroup : (t f d : ℤ) → t +ℤ (f +ℤ d) ≡ t +ℤ f +ℤ d
regroup t f d = omega int_laws

-- A deduction, and a payment to the users.
Paid-Covered :
    (users : List ℕ) (coverage : List ℤ) (drawn : ℤ) (s s1 s2 : Storage)
    → Deducted drawn s s1
    → Paid (paid_to users coverage) s1 s2
    → total coverage ≤ℤ drawn
    → Covered users s s2
unfolding pending_of balance
Paid-Covered users coverage drawn s s1 s2 d paid le = record {
  coverage = coverage;
  drawn = drawn;
  pays = λ v.
      paid.pays v
      ∙ ap (λ m. unwrap_or (m v) (pos 0) +ℤ paid_to users coverage v) d.rest.same_pending;
  solvent = le;
  affordable = affordable-of _ _ drawn d.draws d.keeps_fund;
  draws =
      ap (λ f. treasury_amount s.funds.protocol_fee_treasury +ℤ f) d.draws
      ∙ (regroup _ (get_insurance_fund_balance s1) drawn
          ∙ (ap (λ t. treasury_amount t +ℤ get_insurance_fund_balance s1 +ℤ drawn)
                (sym d.keeps_treasury)
              ∙ ap (λ x. x +ℤ drawn) (sym paid.keeps_protocol)));
  keeps_balances =
      λ v. paid.keeps_balances v ∙ ap (λ m. unwrap_or (m v) (pos 0)) d.rest.same_balances;
}

nobody-paid : (users : List ℕ) (v : ℕ) → pos 0 ≡ paid_to users [] v
nobody-paid [] v = refl
nobody-paid (u ∷ us) v = refl

undistributed-Covered :
    (users : List ℕ) (drawn : ℤ) (s s1 : Storage) → Deducted drawn s s1 → Covered users s s1
undistributed-Covered users drawn s s1 d =
    Paid-Covered users [] drawn s s1 s1 d
      (same-Paid (λ v. pos 0) (paid_to users []) s1 s1 (nobody-paid users) (unpaid-Paid s1))
      d.is_nonneg

positive-pos : (d : ℤ) → ltb_ℤ (pos 0) d ≡ true → d ≡ pos (pos_part d)
positive-pos d h = ground arith

both-true : (a b : Bool) → (a && b) ≡ true → (a ≡ true) × (b ≡ true)
both-true true true h = (refl, refl)
both-true true false h = let no : ⊥ = cc in absurd no
both-true false b h = let no : ⊥ = cc in absurd no

module _ (env : Env) (users : List ℕ) (stakes : List ℤ) (t : ℕ) (are : All IsStake stakes)
    (sums : sum_by pos_part stakes ≡ t) where
  distributed-Covered :
      (drawn : ℤ) (s s1 : Storage)
      → Deducted drawn s s1
      → ltb_ℤ (pos 0) drawn ≡ true
      → ltb_ℤ (pos 0) (pos t) ≡ true
      → Ensures (Covered users s) (distribute_coverage env drawn (pos t) users stakes s1)
  distributed-Covered drawn s s1 d some_drawn some_stake =
      let n = pos_part drawn in
      let le : total (coverages drawn (pos t) users stakes) ≤ℤ drawn =
        rw (positive-pos drawn some_drawn)
          (coverages-le n t users stakes are (ground arith) (omega arith)) in
      Ensures-weaken (distribute_coverage env drawn (pos t) users stakes s1)
        (λ s2 paid.
          Paid-Covered users (coverages drawn (pos t) users stakes) drawn s s1 s2 d paid le)
        (distribute_coverage-Paid env drawn (pos t) users stakes s1)

  cover_participants-Covered :
      (requested : ℤ) (s : Storage)
      → Ensures (Covered users s) (cover_participants env requested users stakes (pos t) s)
  unfolding cover_participants
  cover_participants-Covered requested s =
      Ensures-if _ (ltb_ℤ (pos 0) requested) _ _
        (λ h. Ensures-bind _ (deduct_insurance_coverage requested s) _ (λ (drawn, s1) e.
          let d = Ensures-ok _ _ (deduct-Deducted requested s) e in
          Ensures-if _ (ltb_ℤ (pos 0) drawn && ltb_ℤ (pos 0) (pos t)) _ _
            (λ both.
              let (some_drawn, some_stake) = both-true _ _ both in
              distributed-Covered drawn s s1 d some_drawn some_stake)
            (λ none. undistributed-Covered users drawn s s1 d)))
        (λ h. undistributed-Covered users (pos 0) s s (Deducted-refl s))

  pub cover_round-Covered :
      (eligible : Bool) (s : Storage)
      → Ensures (Covered users s) (cover_round env eligible users stakes (pos t) s)
  unfolding cover_round
  cover_round-Covered eligible s =
      Ensures-if _ (eligible && not (is_empty stakes)) _ _
        (λ h.
          Ensures-bind _ (sum_coverage (pos 0) stakes s) _
            (λ requested e. cover_participants-Covered requested s))
        (λ h. undistributed-Covered users (pos 0) s s (Deducted-refl s))
