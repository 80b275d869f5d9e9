-- ===== src/Contract/Resolution/UpDown.antt =====
-- What the resolution of an up/down round pays (`_resolve_updown_mode` of
-- contracts/src/settlement.rs).
use xelma_blockchain.Prelude.{
  inl, inr, ℕ, ◌+◌, ◌<◌, ◌≡◌, ◌≢◌, refl, sym, Bool, false, List, [], ◌∷◌, arith, if◌then◌else◌,
  Bool-cases,
}
use xelma_blockchain.Int.{ℤ, pos, ◌+ℤ◌, int_laws}
use xelma_blockchain.Errors.{ok, Ensures, Ensures-ok, Ensures-bind}
use xelma_blockchain.SettlementMath.Common.{
  PriceDirection, up, down, unchanged, classify_price_direction, is_one_sided_pool,
}
use xelma_blockchain.Contract.State.{Env, Storage, Round, BetSide, bet_up, bet_down}
use xelma_blockchain.Contract.Balances.{sort_addresses, pending_of}
use xelma_blockchain.Contract.Fees.Collection.{protocol_funds}
use xelma_blockchain.Contract.Betting.{participants_of}
use xelma_blockchain.Contract.Settlement.{_record_refunds_indexed}
use xelma_blockchain.Contract.Settlement.Payments.{due, Paid, none-Paid}
use xelma_blockchain.Contract.Settlement.Refunds.{stake_of, refunds-Paid}
use xelma_blockchain.Contract.Settlement.Awards.{Awarded, awards-Ensures}
use xelma_blockchain.Contract.Resolution.{
  refund_listed, _apply_one_sided_policy, _select_one_sided_policy, resolve_by_direction,
  _resolve_updown_mode,
}

-- Every stake back, and no fee.
abbrev pub Refunded : ℕ → List ℕ → Storage → ℤ × Storage → Type 0
Refunded round_id users s (fee, s') =
    (fee ≡ pos 0) × Paid (due stake_of (s.rounds.position round_id) users) s s'

-- Pools on both sides: refunds at an unchanged price, or the winning side's awards.
abbrev pub Decided : Round → PriceDirection → List ℕ → Storage → ℤ × Storage → Type 0
Decided round unchanged users s r = Refunded round.round_id users s r
Decided round up users s (fee, s') =
    Awarded round.round_id users bet_up round.pool_up round.pool_down s fee s'
Decided round down users s (fee, s') =
    Awarded round.round_id users bet_down round.pool_down round.pool_up s fee s'

abbrev pub Resolved : Round → ℕ → Storage → (Bool × ℤ) × Storage → Type 0
Resolved round final_price s ((one_sided, fee), s') =
    let users = sort_addresses (participants_of s round.round_id) in
    (one_sided ≡ is_one_sided_pool round.pool_up round.pool_down)
    × (if one_sided
        then Refunded round.round_id users s (fee, s')
        else Decided round (classify_price_direction round.price_start final_price) users s
            (fee, s'))

refund_listed-Paid :
    (env : Env) (round_id : ℕ) (users : List ℕ) (s : Storage)
    → Ensures
        (Paid (due stake_of (s.rounds.position round_id) users) s)
        (refund_listed env round_id users s)
unfolding refund_listed
refund_listed-Paid env round_id [] s = none-Paid stake_of (s.rounds.position round_id) s
refund_listed-Paid env round_id (user ∷ users) s = refunds-Paid env round_id 0 (user ∷ users) s

-- The policy that is selected refunds.
one_sided-Refunded :
    (env : Env) (round : Round) (users : List ℕ) (s : Storage)
    → Ensures
        (Refunded round.round_id users s)
        (_apply_one_sided_policy env round (_select_one_sided_policy round) users s)
unfolding _apply_one_sided_policy _select_one_sided_policy
one_sided-Refunded env round users s =
    Ensures-bind _ (refund_listed env round.round_id users s) _
      (λ s' e. (refl, Ensures-ok _ _ (refund_listed-Paid env round.round_id users s) e))

add_zero : (a : ℤ) → a ≡ a +ℤ pos 0
add_zero a = omega int_laws

none-Awarded :
    (round_id : ℕ) (side : BetSide) (w l : ℤ) (s : Storage)
    → Awarded round_id [] side w l s (pos 0) s
none-Awarded round_id side w l s = record {
  pays = λ v. add_zero (pending_of s v);
  keeps_balances = λ v. refl;
  takes_fee = add_zero (protocol_funds s);
  keeps_positions = refl;
}

none-Decided :
    (round : Round) (direction : PriceDirection) (s : Storage)
    → Decided round direction [] s (pos 0, s)
none-Decided round unchanged s = (refl, none-Paid stake_of (s.rounds.position round.round_id) s)
none-Decided round up s = none-Awarded round.round_id bet_up round.pool_up round.pool_down s
none-Decided round down s = none-Awarded round.round_id bet_down round.pool_down round.pool_up s

pub both_some :
    (w l : ℕ) → 0 < w + l → is_one_sided_pool (pos w) (pos l) ≡ false → (w ≢ 0) × (l ≢ 0)
unfolding is_one_sided_pool
both_some w l h e = ground arith

module _ (env : Env) (round : Round) (w l : ℕ) (up_is : round.pool_up ≡ pos w)
    (down_is : round.pool_down ≡ pos l) where
  resolve_by_direction-Decided :
      (direction : PriceDirection) (users : List ℕ) (s : Storage)
      → w ≢ 0
      → l ≢ 0
      → Ensures (Decided round direction users s) (resolve_by_direction env round direction users s)
  unfolding resolve_by_direction
  resolve_by_direction-Decided direction [] s some_up some_down = none-Decided round direction s
  resolve_by_direction-Decided unchanged (user ∷ users) s some_up some_down =
      Ensures-bind _ (_record_refunds_indexed env round.round_id 0 (user ∷ users) s) _
        (λ s' e. (refl, Ensures-ok _ _ (refunds-Paid env round.round_id 0 (user ∷ users) s) e))
  resolve_by_direction-Decided up (user ∷ users) s some_up some_down =
      rw (up_is, down_is)
        (awards-Ensures env round.round_id (user ∷ users) bet_up w l s (ground arith))
  resolve_by_direction-Decided down (user ∷ users) s some_up some_down =
      rw (up_is, down_is)
        (awards-Ensures env round.round_id (user ∷ users) bet_down l w s (ground arith))

  both_sides :
      0 < w + l → is_one_sided_pool round.pool_up round.pool_down ≡ false → (w ≢ 0) × (l ≢ 0)
  both_sides h e = both_some w l h (rw (sym up_is, sym down_is) e)

  resolve-Ensures :
      (final_price : ℕ) (s : Storage)
      → 0 < w + l
      → Ensures (Resolved round final_price s) (_resolve_updown_mode env round final_price s)
  unfolding _resolve_updown_mode
  resolve-Ensures final_price s h =
      let users = sort_addresses (participants_of s round.round_id) in
      let direction = classify_price_direction round.price_start final_price in
      elim (Bool-cases (is_one_sided_pool round.pool_up round.pool_down)) [
        | inl one ↦ rw one (
            Ensures-bind _
              (_apply_one_sided_policy env round (_select_one_sided_policy round) users s) _
              (λ r e. (sym one, Ensures-ok _ _ (one_sided-Refunded env round users s) e)))
        | inr both ↦
            let (some_up, some_down) = both_sides h both in
            rw both (
              Ensures-bind _ (resolve_by_direction env round direction users s) _ (λ r e. (
                sym both,
                Ensures-ok _ _ (resolve_by_direction-Decided direction users s some_up some_down) e,
              )))
      ]

-- When the resolution of an up/down round whose pools are not negative and not both empty returns: if one
-- pool is empty, or else if the price has not moved, every stored participant's stake becomes pending
-- winnings and there is no fee; otherwise the participants on the side that the price took are awarded
-- their shares of both pools less the fee, and the protocol gets the fee. The call returns the fee and
-- whether one pool was empty.
pub _resolve_updown_mode-Resolved :
    (env : Env) (round : Round) (w l final_price : ℕ) (s : Storage) {r : (Bool × ℤ) × Storage}
    → round.pool_up ≡ pos w
    → round.pool_down ≡ pos l
    → 0 < w + l
    → _resolve_updown_mode env round final_price s ≡ ok r
    → Resolved round final_price s r
_resolve_updown_mode-Resolved env round w l final_price s up_is down_is h e =
    Ensures-ok _ _ (resolve-Ensures env round w l up_is down_is final_price s h) e
