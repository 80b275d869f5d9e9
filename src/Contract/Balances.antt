-- ===== src/Contract/Balances.antt =====
-- The helpers of contracts/src/common.rs on balances and pending winnings.
use xelma_blockchain.Prelude.{
  ℕ, Bool, false, Option, none, some, List, [], ◌∷◌, ltb, leb, if◌then◌else◌,
}
use xelma_blockchain.Int.{ℤ, pos, ltb_ℤ}
use xelma_blockchain.Errors.{
  Result, ok, err, ◌>>=◌, pending_winnings_cap_exceeded, below_min_bet, round_already_active,
}
use xelma_blockchain.SettlementMath.Common.{payout_add}
use xelma_blockchain.Contract.State.{Env, put, is_some, unwrap_or, Storage, Funds, Round}

unfoldable pub balance : Storage → ℕ → ℤ
balance s user = unwrap_or (s.funds.balance user) (pos 0)

abbrev pub with_funds : Storage → Funds → Storage
with_funds s funds = record s { funds = funds }

unfoldable pub _set_balance : Storage → ℕ → ℤ → Storage
_set_balance s user amount =
    with_funds s (record s.funds { balance = put s.funds.balance user amount })

-- `persistent().get(&PendingWinnings(user)).unwrap_or(0)`
unfoldable pub pending_of : Storage → ℕ → ℤ
pending_of s user = unwrap_or (s.funds.pending_winnings user) (pos 0)

-- Whether a configured cap is below an amount.
abbrev pub exceeds_cap : ℤ → Option ℤ → Bool
exceeds_cap amount none = false
exceeds_cap amount (some cap) = ltb_ℤ cap amount

unfoldable pub _accumulate_pending : Env → ℕ → ℤ → Storage → Result Storage
unfolding pending_of
_accumulate_pending env user amount s = do
  new_pending ← payout_add (pending_of s user) amount
  if exceeds_cap new_pending s.config.max_pending_winnings
      then err pending_winnings_cap_exceeded
      else ok (
          with_funds s (record s.funds {
            pending_winnings = put s.funds.pending_winnings user new_pending;
            pending_updated_at = put s.funds.pending_updated_at user env.sequence;
          }))

unfoldable pub _enforce_min_bet : Storage → ℤ → Result (Unit {0})
_enforce_min_bet s amount = elim s.config.min_bet [
  | none ↦ ok tt
  | some min_bet ↦ if ltb_ℤ amount min_bet then err below_min_bet else ok tt
]

unfoldable pub assert_no_active_round : Storage → Result (Unit {0})
assert_no_active_round s = if is_some s.rounds.active_round then err round_already_active else ok tt

pub data RoundPhase : Type 0 where
  betting running resolvable : RoundPhase

unfoldable pub _derive_round_phase : ℕ → Round → RoundPhase
_derive_round_phase ledger_sequence round =
    if ltb ledger_sequence round.bet_end_ledger
    then betting
    else if ltb ledger_sequence round.end_ledger
    then running
    else resolvable

-- Sorting the addresses: the host's order is that of ℕ here, and equal addresses are not told apart.
unfoldable pub insert_address : ℕ → List ℕ → List ℕ
insert_address a [] = a ∷ []
insert_address a (b ∷ bs) =
    let rest = insert_address a bs in if leb a b then a ∷ b ∷ bs else b ∷ rest

unfoldable pub sort_addresses : List ℕ → List ℕ
unfolding insert_address
sort_addresses [] = []
sort_addresses (a ∷ addresses) = insert_address a (sort_addresses addresses)
