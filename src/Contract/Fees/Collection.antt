-- ===== src/Contract/Fees/Collection.antt =====
-- Where a collected fee goes (contracts/src/config.rs, contracts/src/insurance.rs): the treasury and
-- the insurance fund together grow by exactly the fee.
use xelma_blockchain.Prelude.{◌≡◌, refl, true, false, Option, none, some, arith}
use xelma_blockchain.Int.{ℤ, pos, ◌+ℤ◌, ◌-ℤ◌, ◌≤ℤ◌, int_laws, min_ℤ, leb_ℤ}
use xelma_blockchain.Machine.{checked_add, checked_sub}
use xelma_blockchain.Machine.Laws.{checked_add-eq-some, checked_sub-eq-some}
use xelma_blockchain.Errors.{
  ok, ok_or, ◌>>=◌, overflow, Ensures, Ensures-ok, Ensures-bind, Ensures-if, Ensures-ok_or,
}
use xelma_blockchain.Contract.State.{TreasuryValue, fees, address, Storage}
use xelma_blockchain.Contract.Fees.{
  read_treasury, write_treasury, get_insurance_fund_balance, write_insurance_fund,
  credit_insurance_fund, collect_insurance_fee, _collect_protocol_fee,
}

abbrev pub treasury_amount : Option TreasuryValue → ℤ
treasury_amount none = pos 0
treasury_amount (some (fees a)) = a
treasury_amount (some (address a)) = pos 0

-- The protocol's money: the treasury and the insurance fund.
abbrev pub protocol_funds : Storage → ℤ
protocol_funds s = treasury_amount s.funds.protocol_fee_treasury +ℤ get_insurance_fund_balance s

-- The fund takes its part; the treasury is as it was.
abbrev pub Split : ℤ → Storage → ℤ × Storage → Type 0
Split fee s (part, s') =
    (get_insurance_fund_balance s' ≡ get_insurance_fund_balance s +ℤ part)
    × (s'.funds.protocol_fee_treasury ≡ s.funds.protocol_fee_treasury)
    × (pos 0 ≤ℤ part)

add_zero : (a : ℤ) → a ≡ a +ℤ pos 0
add_zero a = omega int_laws

written-Split :
    (fee part b : ℤ) (s : Storage)
    → b ≡ get_insurance_fund_balance s +ℤ part
    → pos 0 ≤ℤ part
    → Split fee s (part, write_insurance_fund s b)
unfolding get_insurance_fund_balance write_insurance_fund
written-Split fee part b s e h = (e, refl, h)

still-Split : (fee : ℤ) (s : Storage) → Split fee s (pos 0, s)
still-Split fee s = (add_zero (get_insurance_fund_balance s), refl, omega arith)

min-nonneg : (a b : ℤ) → leb_ℤ a (pos 0) ≡ false → leb_ℤ b (pos 0) ≡ false → pos 0 ≤ℤ min_ℤ a b
min-nonneg a b h k = ground arith

credit_insurance_fund-Split :
    (part fee : ℤ) (s : Storage)
    → leb_ℤ fee (pos 0) ≡ false
    → Ensures (Split fee s) (credit_insurance_fund part fee s)
unfolding credit_insurance_fund
credit_insurance_fund-Split part fee s h =
    Ensures-if (Split fee s) (leb_ℤ part (pos 0)) _ _ (λ e. still-Split fee s)
      (λ e.
        Ensures-ok_or (Split fee s) (checked_add (get_insurance_fund_balance s) (min_ℤ part fee)) _
          _
          (λ b some_b.
            written-Split fee (min_ℤ part fee) b s (checked_add-eq-some _ _ some_b)
              (min-nonneg part fee e h)))

pub collect_insurance_fee-Split :
    (fee : ℤ) (s : Storage) → Ensures (Split fee s) (collect_insurance_fee fee s)
unfolding collect_insurance_fee
collect_insurance_fee-Split fee s = grind (arith, still-Split fee s, credit_insurance_fund-Split)

-- A fee collected: the protocol's money grows by it.
abbrev pub Collects : ℤ → Storage → Storage → Type 0
Collects fee s s' = protocol_funds s' ≡ protocol_funds s +ℤ fee

regroup : (t f p fee : ℤ) → (t +ℤ (fee -ℤ p)) +ℤ (f +ℤ p) ≡ (t +ℤ f) +ℤ fee
regroup t f p fee = omega int_laws

nothing-Collects :
    (fee : ℤ) (s : Storage) → pos 0 ≤ℤ fee → leb_ℤ fee (pos 0) ≡ true → Collects fee s s
nothing-Collects fee s h k = grind (arith, add_zero (protocol_funds s))

read_treasury-amount :
    (s : Storage)
    → Ensures (λ current. current ≡ treasury_amount s.funds.protocol_fee_treasury) (read_treasury s)
unfolding read_treasury
read_treasury-amount s = ground arith

fund-unmoved :
    (s : Storage) (a : ℤ)
    → get_insurance_fund_balance (write_treasury s a) ≡ get_insurance_fund_balance s
unfolding write_treasury get_insurance_fund_balance
fund-unmoved s a = refl

treasury-written :
    (s : Storage) (a : ℤ) → treasury_amount (write_treasury s a).funds.protocol_fee_treasury ≡ a
unfolding write_treasury
treasury-written s a = refl

written-Collects :
    (fee part : ℤ) (s s' : Storage) (current : ℤ)
    → Split fee s (part, s')
    → current ≡ treasury_amount s'.funds.protocol_fee_treasury
    → Collects fee s (write_treasury s' (current +ℤ (fee -ℤ part)))
written-Collects fee part s s' current (f, t, n) h =
    rw
      (
        fund-unmoved s' (current +ℤ (fee -ℤ part)),
        treasury-written s' (current +ℤ (fee -ℤ part)),
        f,
        h,
        t,
      )
      (regroup (treasury_amount s.funds.protocol_fee_treasury) (get_insurance_fund_balance s) part
        fee)

credit_treasury :
    (fee : ℤ) (s : Storage) (r : ℤ × Storage)
    → Split fee s r
    → Ensures (Collects fee s) (do
      ops_amount ← ok_or (checked_sub fee r.0) overflow
      current ← read_treasury r.1
      new_treasury ← ok_or (checked_add current ops_amount) overflow
      ok (write_treasury r.1 new_treasury))
credit_treasury fee s (part, s') (f, t, n) =
    Ensures-ok_or (Collects fee s) (checked_sub fee part) _ _ (λ ops e.
      Ensures-bind (Collects fee s) (read_treasury s') _ (λ current r.
        Ensures-ok_or (Collects fee s) (checked_add current ops) _ _ (λ new_treasury w.
          rw (checked_add-eq-some current ops w, checked_sub-eq-some fee part e)
            (written-Collects fee part s s' current (f, t, n)
              (Ensures-ok _ _ (read_treasury-amount s') r)))))

pub _collect_protocol_fee-Collects :
    (fee : ℤ) (s : Storage) → pos 0 ≤ℤ fee → Ensures (Collects fee s) (_collect_protocol_fee fee s)
unfolding _collect_protocol_fee
_collect_protocol_fee-Collects fee s h =
    Ensures-if (Collects fee s) (leb_ℤ fee (pos 0)) _ _ (nothing-Collects fee s h) (λ e.
      Ensures-bind (Collects fee s) (collect_insurance_fee fee s) _
        (λ r eq. credit_treasury fee s r (Ensures-ok _ _ (collect_insurance_fee-Split fee s) eq)))
