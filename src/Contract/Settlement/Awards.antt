-- ===== src/Contract/Settlement/Awards.antt =====
-- `_record_winnings_indexed` of contracts/src/settlement.rs shares the pools of an up/down round, less the
-- protocol fee.
use xelma_blockchain.Prelude.{ℕ, ◌≢◌, ◌≡◌, sym, ap, subst, ◌∙◌, false, List, arith, if◌then◌else◌}
use xelma_blockchain.Int.{ℤ, pos, ◌+ℤ◌, ◌-ℤ◌, ltb_ℤ, eqb_ℤ, int_laws}
use xelma_blockchain.Machine.{checked_add}
use xelma_blockchain.Machine.Laws.{checked_add-eq-some}
use xelma_blockchain.Errors.{ok, Ensures, Ensures-ok, Ensures-bind, Ensures-ok_or, Ensures-if}
use xelma_blockchain.SettlementMath.Common.{payout_add}
use xelma_blockchain.Contract.State.{unwrap_or, Env, Storage, BetSide}
use xelma_blockchain.Contract.Balances.{balance, pending_of}
use xelma_blockchain.Contract.Fees.{
  calculate_protocol_fee_updown, _apply_protocol_fee_updown, _collect_protocol_fee,
  _read_protocol_fee_bps, _read_fee_model,
}
use xelma_blockchain.Contract.Fees.Collection.{protocol_funds, Collects}
use xelma_blockchain.Contract.Fees.Incidence.{
  calculate_protocol_fee_updown-conserves, fee-nonneg, collect_if_positive,
}
use xelma_blockchain.Contract.CashOut.Payments.{Apart, Apart-refl, _collect_protocol_fee-Apart}
use xelma_blockchain.Contract.Settlement.{settle_participants, _record_winnings_indexed}
use xelma_blockchain.Contract.Settlement.Winnings.{award, settle_participants-Paid}
use xelma_blockchain.Contract.Settlement.Payments.{due, Paid}

-- What the fee leaves of the pools; the protocol has the rest, and nothing else changes.
Charged : ℤ → ℤ → Storage → (ℤ × ℤ × ℤ) × Storage → Type 0
Charged w l s ((dw, dl, fee), s') = (dw +ℤ dl +ℤ fee ≡ w +ℤ l) × Collects fee s s' × Apart s s'

pub collect_if_positive-Apart :
    (fee : ℤ) (s : Storage)
    → Ensures (Apart s) (if ltb_ℤ (pos 0) fee then _collect_protocol_fee fee s else ok s)
collect_if_positive-Apart fee s =
    Ensures-if _ (ltb_ℤ (pos 0) fee) _ _ (λ e. _collect_protocol_fee-Apart fee s)
      (λ e. Apart-refl s)

_apply_protocol_fee_updown-Charged :
    (w l : ℕ) (s : Storage)
    → Ensures (Charged (pos w) (pos l) s) (_apply_protocol_fee_updown (pos w) (pos l) s)
unfolding _apply_protocol_fee_updown Charged
_apply_protocol_fee_updown-Charged w l s =
    let bps = _read_protocol_fee_bps s in
    let model = _read_fee_model s in
    Ensures-bind _ (calculate_protocol_fee_updown bps model (pos w) (pos l)) _ (λ (dw, dl, fee) e.
      Ensures-bind _ (if ltb_ℤ (pos 0) fee then _collect_protocol_fee fee s else ok s) _ (λ s' e'. (
        calculate_protocol_fee_updown-conserves bps model (pos w) (pos l) e,
        Ensures-ok _ _ (collect_if_positive fee s (Ensures-ok _ _ (fee-nonneg bps model w l) e)) e',
        Ensures-ok _ _ (collect_if_positive-Apart fee s) e',
      )))

-- The winnings of a round, with the fee that was taken.
pub record Awarded (round_id : ℕ) (users : List ℕ) (side : BetSide) (w l : ℤ) (s : Storage)
    (fee : ℤ) (s' : Storage) : Type 0 where
  pub pays :
      (v : ℕ)
      → pending_of s' v
        ≡ pending_of s v +ℤ due (award side w (w +ℤ l -ℤ fee)) (s.rounds.position round_id) users v
  pub keeps_balances : (v : ℕ) → balance s' v ≡ balance s v
  pub takes_fee : protocol_funds s' ≡ protocol_funds s +ℤ fee
  pub keeps_positions : s'.rounds.position ≡ s.rounds.position

left_over : (dw dl fee w l : ℤ) → dw +ℤ dl +ℤ fee ≡ w +ℤ l → dw +ℤ dl ≡ w +ℤ l -ℤ fee
left_over dw dl fee w l h = rw (sym h) (undone dw dl fee)
  where
    undone : (a b c : ℤ) → a +ℤ b ≡ a +ℤ b +ℤ c -ℤ c
    undone a b c = omega int_laws

then-Awarded :
    (round_id : ℕ) (users : List ℕ) (side : BetSide) (w l dw dl fee : ℤ) (s s1 s2 : Storage)
    → Charged w l s ((dw, dl, fee), s1)
    → Paid (due (award side w (dw +ℤ dl)) (s1.rounds.position round_id) users) s1 s2
    → Awarded round_id users side w l s fee s2
unfolding Charged pending_of balance
then-Awarded round_id users side w l dw dl fee s s1 s2 (adds, collected, a) paid = record {
  pays = λ v.
      paid.pays v
      ∙ (ap
            (λ m.
              unwrap_or (m v) (pos 0)
              +ℤ due (award side w (dw +ℤ dl)) (s1.rounds.position round_id) users v)
            a.same_pending
          ∙ (ap (λ r. pending_of s v +ℤ due (award side w (dw +ℤ dl)) (r.position round_id) users v)
                a.same_rounds
              ∙ ap
                  (λ x. pending_of s v +ℤ due (award side w x) (s.rounds.position round_id) users v)
                  (left_over dw dl fee w l adds)));
  keeps_balances = λ v. paid.keeps_balances v ∙ ap (λ m. unwrap_or (m v) (pos 0)) a.same_balances;
  takes_fee = paid.keeps_protocol ∙ collected;
  keeps_positions = paid.keeps_positions ∙ ap (λ r. r.position) a.same_rounds;
}

pub awards-Ensures :
    (env : Env) (round_id : ℕ) (users : List ℕ) (side : BetSide) (w l : ℕ) (s : Storage)
    → eqb_ℤ (pos w) (pos 0) ≡ false
    → Ensures
        (λ (fee, s'). Awarded round_id users side (pos w) (pos l) s fee s')
        (_record_winnings_indexed env round_id users side (pos w) (pos l) s)
unfolding _record_winnings_indexed payout_add
awards-Ensures env round_id users side w l s nz =
    Ensures-if _ (eqb_ℤ (pos w) (pos 0)) _ _ (λ z. let none_left : ⊥ = cc in absurd none_left)
      (λ nz'.
        Ensures-bind _ (_apply_protocol_fee_updown (pos w) (pos l) s) _ (λ ((dw, dl, fee), s1) e.
          Ensures-ok_or _ (checked_add dw dl) _ _ (λ total e1.
            Ensures-bind _ (settle_participants env round_id side (pos w) total users s1) _
              (λ s2 e2.
                then-Awarded round_id users side (pos w) (pos l) dw dl fee s s1 s2
                  (Ensures-ok _ _ (_apply_protocol_fee_updown-Charged w l s) e)
                  (subst
                    (λ x.
                      Paid (due (award side (pos w) x) (s1.rounds.position round_id) users) s1 s2)
                    (checked_add-eq-some _ _ e1)
                    (Ensures-ok _ _
                      (settle_participants-Paid env round_id side (pos w) total nz users s1)
                      e2))))))

-- When the winnings of an up/down round are recorded for pools that are not negative, the winning one
-- not empty, and the call returns, the pending winnings of each listed user grow by the share, of both
-- pools less the fee, that the user's stake has in the winning pool if the user's side has won, and by
-- nothing otherwise; the treasury and the insurance fund together grow by the fee that the call returns,
-- and no balance and no position changes.
pub _record_winnings_indexed-Awarded :
    (env : Env) (round_id : ℕ) (users : List ℕ) (side : BetSide) (w l : ℕ) (s : Storage) {fee : ℤ}
    {s' : Storage}
    → w ≢ 0
    → _record_winnings_indexed env round_id users side (pos w) (pos l) s ≡ ok (fee, s')
    → Awarded round_id users side (pos w) (pos l) s fee s'
_record_winnings_indexed-Awarded env round_id users side w l s nz h =
    Ensures-ok (λ (fee, s'). Awarded round_id users side (pos w) (pos l) s fee s') _
      (awards-Ensures env round_id users side w l s (ground arith)) h
