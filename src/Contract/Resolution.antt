-- ===== src/Contract/Resolution.antt =====
-- The resolution of an up/down round: `_resolve_updown_mode` of contracts/src/settlement.rs, built as by
-- default, without the feature `legacy-map-settlement`.
pub mod UpDown
use xelma_blockchain.Prelude.{ℕ, Bool, true, List, [], ◌∷◌, if◌then◌else◌}
use xelma_blockchain.Int.{ℤ, pos}
use xelma_blockchain.Errors.{Result, ok, ◌>>=◌}
use xelma_blockchain.SettlementMath.Common.{
  PriceDirection, up, down, unchanged, classify_price_direction, is_one_sided_pool,
}
use xelma_blockchain.Contract.State.{Env, Storage, Round, bet_up, bet_down}
use xelma_blockchain.Contract.Balances.{sort_addresses}
use xelma_blockchain.Contract.Betting.{participants_of}
use xelma_blockchain.Contract.Settlement.{_record_refunds_indexed, _record_winnings_indexed}

pub data OneSidedPolicy : Type 0 where
  refund_policy void_policy carry_forward : OneSidedPolicy

unfoldable pub _select_one_sided_policy : Round → OneSidedPolicy
_select_one_sided_policy round = refund_policy

-- The refunds are skipped without participants; the legacy positions that the source reads then are
-- used only by the feature. The amounts refunded and carried go into an event alone.
unfoldable pub refund_listed : Env → ℕ → List ℕ → Storage → Result Storage
refund_listed env round_id [] s = ok s
refund_listed env round_id (user ∷ users) s =
    _record_refunds_indexed env round_id 0 (user ∷ users) s

unfoldable pub _apply_one_sided_policy :
    Env → Round → OneSidedPolicy → List ℕ → Storage → Result (ℤ × Storage)
_apply_one_sided_policy env round refund_policy participants s = do
  s' ← refund_listed env round.round_id participants s
  ok (pos 0, s')
_apply_one_sided_policy env round void_policy participants s = do
  s' ← refund_listed env round.round_id participants s
  ok (pos 0, s')
_apply_one_sided_policy env round carry_forward participants s = do
  s' ← refund_listed env round.round_id participants s
  ok (pos 0, s')

-- Pools on both sides: by the direction that the price took.
unfoldable pub resolve_by_direction :
    Env → Round → PriceDirection → List ℕ → Storage → Result (ℤ × Storage)
resolve_by_direction env round direction [] s = ok (pos 0, s)
resolve_by_direction env round unchanged (user ∷ users) s = do
  s' ← _record_refunds_indexed env round.round_id 0 (user ∷ users) s
  ok (pos 0, s')
resolve_by_direction env round up (user ∷ users) s =
    _record_winnings_indexed env round.round_id (user ∷ users) bet_up round.pool_up round.pool_down
      s
resolve_by_direction env round down (user ∷ users) s =
    _record_winnings_indexed env round.round_id (user ∷ users) bet_down round.pool_down
      round.pool_up s

-- Whether the pools were one-sided, the fee, and the storage after.
unfoldable pub _resolve_updown_mode : Env → Round → ℕ → Storage → Result ((Bool × ℤ) × Storage)
_resolve_updown_mode env round final_price s = do
  let participants = sort_addresses (participants_of s round.round_id)
  let is_one_sided = is_one_sided_pool round.pool_up round.pool_down
  (fee_amount, s') ←
      (if is_one_sided
        then _apply_one_sided_policy env round (_select_one_sided_policy round) participants s
        else resolve_by_direction env round (classify_price_direction round.price_start final_price)
            participants s)
  ok ((is_one_sided, fee_amount), s')
