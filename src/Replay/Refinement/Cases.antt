-- ===== src/Replay/Refinement/Cases.antt =====
-- A refunded and a decided up/down round against the replay of its transcript.

use xelma_blockchain.Prelude.{
  ℕ, ◌+◌, ◌-◌, ◌≡◌, ◌≢◌, refl, sym, ap, ◌∙◌, Bool, true, false, bool_eq, ◌||◌, Option, some, List,
  map, arith, ltb, if◌then◌else◌,
}
use xelma_blockchain.Int.{ℤ, pos, ◌+ℤ◌, ◌-ℤ◌, pos-add, pos-sub}
use xelma_blockchain.Errors.{ok}
use xelma_blockchain.SettlementMath.Common.{
  PriceDirection, up, down, classify_price_direction, is_one_sided_pool,
}
use xelma_blockchain.SettlementMath.Fees.Conservation.{fee_of, fee_of-le}
use xelma_blockchain.SettlementMath.UpDown.{refund_entry, is_unchanged, compute_updown_payouts}
use xelma_blockchain.SettlementMath.UpDown.Entries.{share, paid_entry}
use xelma_blockchain.SettlementMath.UpDown.Payouts.{FitsRate, FitsRate-IsRate}
use xelma_blockchain.Contract.State.{
  Storage, Round, BetSide, bet_up, bet_down, side_is, UserPosition,
}
use xelma_blockchain.Contract.Balances.{sort_addresses, pending_of}
use xelma_blockchain.Contract.Betting.{participants_of}
use xelma_blockchain.Contract.Fees.{_read_protocol_fee_bps}
use xelma_blockchain.Contract.Settlement.Payments.{due}
use xelma_blockchain.Contract.Settlement.Refunds.{stake_of}
use xelma_blockchain.Contract.Settlement.Winnings.{award}
use xelma_blockchain.Contract.Settlement.Awards.{Awarded}
use xelma_blockchain.Contract.Resolution.UpDown.{Refunded}
use xelma_blockchain.Replay.Transcript.{
  resolved, OracleTranscript, ExpectedOutcome, RoundTranscript, done, is_empty,
}
use xelma_blockchain.Replay.Engine.{ReplayResult, position_row, replay_round}
use xelma_blockchain.Replay.Refinement.Rows.{row, credited, payouts_of, credited-rows}
use xelma_blockchain.Replay.Refinement.Outcome.{
  recorded, replay_round-recorded, replay_updown-by, refunded_entries,
}

-- The replay returns the fee that was taken and the payouts that were credited.
pub record Agrees (t : RoundTranscript) (s s' : Storage) (fee : ℤ) (r : ReplayResult) : Type 0 where
  pub replayed : replay_round t ≡ done r
  pub same_fee : r.total_fee ≡ fee
  pub pays :
      (user : ℕ) → pending_of s' user ≡ pending_of s user +ℤ credited user t.participants r.payouts

-- The direction is the order of the two prices.
pub up-ltb : (a b : ℕ) → classify_price_direction a b ≡ up → ltb a b ≡ true
unfolding classify_price_direction
up-ltb a b h = ground arith

pub down-ltb : (a b : ℕ) → classify_price_direction a b ≡ down → (ltb a b ≡ false) × (a ≢ b)
unfolding classify_price_direction
down-ltb a b h = ground arith

abbrev pub side_of : Bool → BetSide
side_of true = bet_up
side_of false = bet_down

won_alike :
    (b : Bool) (w : ℤ) (t : ℤ) (i u : ℕ) (p : UserPosition)
    → (paid_entry b w t (position_row (row i u p))).payout ≡ award (side_of b) w t (some p)
won_alike b w t i u p = by_side b p.side
  where
    by_side :
        (b : Bool) (side : BetSide)
        → (if bool_eq (side_is side bet_up) b then share w t p.amount else pos 0)
          ≡ (if side_is side (side_of b) then share w t p.amount else pos 0)
    by_side true bet_up = refl
    by_side true bet_down = refl
    by_side false bet_up = refl
    by_side false bet_down = refl

module _ (round : Round) (u d final_price : ℕ) (oracle : OracleTranscript)
    (expected : ExpectedOutcome) (s : Storage) where
  abbrev pub t : RoundTranscript
  t = recorded round final_price oracle expected s

  abbrev pub bps : Option ℕ
  bps = _read_protocol_fee_bps s

  abbrev pub users : List ℕ
  users = sort_addresses (participants_of s round.round_id)

  abbrev pub direction : PriceDirection
  direction = classify_price_direction round.price_start final_price

  module _ (up_is : round.pool_up ≡ pos u) (down_is : round.pool_down ≡ pos d)
      (ne : is_empty t.participants ≡ false) (same : oracle.round_id ≡ round.round_id)
      (fits : FitsRate bps (u + d)) where
    pub refunds-Agrees :
        (s' : Storage) (fee : ℤ)
        → (is_unchanged direction || is_one_sided_pool round.pool_up round.pool_down) ≡ true
        → Refunded round.round_id users s (fee, s')
        → (r : ReplayResult) × Agrees t s s' fee r
    refunds-Agrees s' fee h (no_fee, paid) = (
      record {
        archive_status = resolved;
        total_fee = pos 0;
        payouts = payouts_of refund_entry t.participants;
      },
      record {
        replayed =
            replay_round-recorded round final_price oracle expected s ne same
            ∙ replay_updown-by t refund_entry true u d up_is down_is ne fits (λ q. refl)
                (refunded_entries (map position_row t.participants) round.price_start final_price
                  round.pool_up round.pool_down bps h);
        same_fee = sym no_fee;
        pays = λ v.
            paid.pays v
            ∙ ap (λ x. pending_of s v +ℤ x)
                (sym (
                  credited-rows refund_entry stake_of refl (λ i w p. refl) 0
                    (s.rounds.position round.round_id) users v));
      },
    )

    -- The award of a side, with the pool that it has won.
    pub awards-Agrees :
        (b : Bool) (w l : ℕ) (s' : Storage) (fee : ℤ)
        → w + l ≡ u + d
        → fee ≡ pos (fee_of bps (u + d))
        → compute_updown_payouts
            (map position_row t.participants)
            round.price_start
            final_price
            round.pool_up
            round.pool_down
            bps
          ≡ ok (
              map
                (paid_entry b (pos w) (pos (u + d - fee_of bps (u + d))))
                (map position_row t.participants))
        → Awarded round.round_id users (side_of b) (pos w) (pos l) s fee s'
        → (r : ReplayResult) × Agrees t s s' fee r
    awards-Agrees b w l s' fee pot is_fee entries a =
        let total = u + d - fee_of bps (u + d) in
        let entry = paid_entry b (pos w) (pos total) in
        (
          record {
            archive_status = resolved;
            total_fee = pos (fee_of bps (u + d));
            payouts = payouts_of entry t.participants;
          },
          record {
            replayed =
                replay_round-recorded round final_price oracle expected s ne same
                ∙ replay_updown-by t entry false u d up_is down_is ne fits (λ q. refl) entries;
            same_fee = sym is_fee;
            pays = λ v.
                a.pays v
                ∙ ap
                    (λ x.
                      pending_of s v
                      +ℤ due (award (side_of b) (pos w) x) (s.rounds.position round.round_id) users
                          v)
                    (left_over w l fee pot is_fee)
                ∙ ap (λ x. pending_of s v +ℤ x)
                    (sym (
                      credited-rows entry (award (side_of b) (pos w) (pos total)) refl
                        (won_alike b (pos w) (pos total)) 0 (s.rounds.position round.round_id) users
                        v));
          },
        )
      where
        left_over :
            (w l : ℕ) (fee : ℤ)
            → w + l ≡ u + d
            → fee ≡ pos (fee_of bps (u + d))
            → pos w +ℤ pos l -ℤ fee ≡ pos (u + d - fee_of bps (u + d))
        left_over w l fee pot is_fee =
            rw (is_fee, pos-add, pot)
              (pos-sub (u + d) (fee_of bps (u + d))
                (fee_of-le bps (u + d) (FitsRate-IsRate bps (u + d) fits)))
