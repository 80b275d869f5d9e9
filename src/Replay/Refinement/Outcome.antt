-- ===== src/Replay/Refinement/Outcome.antt =====
-- The replay of the transcript that a round leaves.
use xelma_blockchain.Prelude.{
  ℕ, ◌+◌, ◌≡◌, refl, Bool, true, false, ◌||◌, Option, none, List, map, length, arith, ==_refl,
  if◌then◌else◌,
}
use xelma_blockchain.Int.{ℤ, pos}
use xelma_blockchain.Errors.{ok}
use xelma_blockchain.SettlementMath.Common.{classify_price_direction, is_one_sided_pool}
use xelma_blockchain.SettlementMath.Fees.Conservation.{fee_of}
use xelma_blockchain.SettlementMath.UpDown.{
  UpDownPosition, UpDownPayoutEntry, refund_entry, is_unchanged, compute_updown_payouts,
}
use xelma_blockchain.SettlementMath.UpDown.Payouts.{FitsRate, fee_total}
use xelma_blockchain.Contract.State.{Storage, Round}
use xelma_blockchain.Contract.Balances.{sort_addresses}
use xelma_blockchain.Contract.Betting.{participants_of}
use xelma_blockchain.Contract.Fees.{_read_protocol_fee_bps}
use xelma_blockchain.Replay.Transcript.{
  up_down, resolve, resolved, OracleTranscript, ExpectedOutcome, RoundTranscript, done,
  validate_schema, is_empty,
}
use xelma_blockchain.Replay.Engine.{
  position_row, updown_payout, replay_updown, replay_resolve, replay_round, at_least_zero,
}
use xelma_blockchain.Replay.Refinement.Rows.{rows, order_check-rows, all_hold_const}

-- The transcript of an up/down round that was resolved at a price, from the storage before.
abbrev pub recorded : Round → ℕ → OracleTranscript → ExpectedOutcome → Storage → RoundTranscript
recorded round final_price oracle expected s =
    let participants =
      rows 0 (s.rounds.position round.round_id)
        (sort_addresses (participants_of s round.round_id)) in
    record {
      schema_version = 1;
      round_id = round.round_id;
      mode = up_down;
      terminal = resolve;
      price_start = round.price_start;
      final_price = final_price;
      pool_up = round.pool_up;
      pool_down = round.pool_down;
      fee_bps = _read_protocol_fee_bps s;
      min_participants = none;
      participant_count = length participants;
      oracle = oracle;
      participants = participants;
      expected = expected;
    }

module _ (round : Round) (final_price : ℕ) (oracle : OracleTranscript) (expected : ExpectedOutcome)
    (s : Storage) where
  abbrev t : RoundTranscript
  t = recorded round final_price oracle expected s

  validate_schema-recorded : is_empty t.participants ≡ false → validate_schema t ≡ done tt
  unfolding validate_schema
  validate_schema-recorded ne =
      rw
        (
          ne,
          order_check-rows 0 (s.rounds.position round.round_id)
              (sort_addresses (participants_of s round.round_id)),
          ==_refl (length t.participants),
        )
        refl

  pub replay_round-recorded :
      is_empty t.participants ≡ false
      → oracle.round_id ≡ round.round_id
      → replay_round t ≡ replay_updown t
  unfolding replay_round replay_resolve
  replay_round-recorded ne same =
      rw (validate_schema-recorded ne, same, ==_refl round.round_id) refl

-- One entry for each row by a rule, all refunds or none: the payouts, and the fee where there is one.
pub replay_updown-by :
    (t : RoundTranscript) (entry : UpDownPosition → UpDownPayoutEntry) (b : Bool) (u d : ℕ)
    → t.pool_up ≡ pos u
    → t.pool_down ≡ pos d
    → is_empty t.participants ≡ false
    → FitsRate t.fee_bps (u + d)
    → ((q : UpDownPosition) → (entry q).is_refund ≡ b)
    → compute_updown_payouts
        (map position_row t.participants)
        t.price_start
        t.final_price
        t.pool_up
        t.pool_down
        t.fee_bps
      ≡ ok (map entry (map position_row t.participants))
    → replay_updown t
      ≡ done (record {
        archive_status = resolved;
        total_fee = if b then pos 0 else pos (fee_of t.fee_bps (u + d));
        payouts = map updown_payout (map entry (map position_row t.participants));
      })
unfolding replay_updown
replay_updown-by t entry true u d hu hd ne fits refunds e =
    rw (e, all_hold_const entry true t.participants refunds ne) refl
replay_updown-by t entry false u d hu hd ne fits refunds e =
    rw (e, all_hold_const entry false t.participants refunds ne)
      (rw (hu, hd, clamped u, clamped d, fee_total u d t.fee_bps fits) refl)
  where
    clamped : (n : ℕ) → at_least_zero (pos n) ≡ pos n
    clamped n = ground arith

-- One pool is empty or the price has not moved: refunds.
pub refunded_entries :
    (ps : List UpDownPosition) (start final : ℕ) (pool_up pool_down : ℤ) (bps : Option ℕ)
    → (is_unchanged (classify_price_direction start final) || is_one_sided_pool pool_up pool_down)
      ≡ true
    → compute_updown_payouts ps start final pool_up pool_down bps ≡ ok (map refund_entry ps)
unfolding compute_updown_payouts
refunded_entries ps start final pool_up pool_down bps h = ground arith
