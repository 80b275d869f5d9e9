-- ===== src/Replay/Refinement/Live.antt =====
-- The live settlement of an up/down round against the replay of its transcript.
use native.Mathlib.Nat.{add_comm}
use xelma_blockchain.Prelude.{
  ℕ, ◌+◌, ◌<◌, ◌≡◌, ◌≢◌, inl, inr, refl, Bool, true, false, ◌||◌, Option, List, [], ◌∷◌, map, All,
  arith, Bool-cases,
}
use xelma_blockchain.Int.{ℤ, pos}
use xelma_blockchain.Errors.{ok, Ensures, Ensures-ok, Ensures-bind}
use xelma_blockchain.SettlementMath.Common.{
  PriceDirection, up, down, unchanged, classify_price_direction, is_one_sided_pool,
}
use xelma_blockchain.SettlementMath.Fees.Conservation.{fee_of}
use xelma_blockchain.SettlementMath.UpDown.{is_unchanged}
use xelma_blockchain.SettlementMath.UpDown.Payouts.{
  FitsRate, FitsRate-IsRate, IsPayable, compute_updown_payouts_total,
}
use xelma_blockchain.Contract.State.{Env, Storage, Round, bet_up, bet_down, fee_on_pot}
use xelma_blockchain.Contract.Balances.{sort_addresses}
use xelma_blockchain.Contract.Betting.{participants_of}
use xelma_blockchain.Contract.Fees.{_read_protocol_fee_bps, _read_fee_model}
use xelma_blockchain.Contract.Settlement.{_record_refunds_indexed}
use xelma_blockchain.Contract.Resolution.{resolve_by_direction, _resolve_updown_mode}
use xelma_blockchain.Contract.Resolution.UpDown.{Decided, both_some, _resolve_updown_mode-Resolved}
use xelma_blockchain.Replay.Transcript.{
  OracleTranscript, ExpectedOutcome, RoundTranscript, is_empty,
}
use xelma_blockchain.Replay.Engine.{ReplayResult, position_row}
use xelma_blockchain.Replay.Refinement.Rows.{rows}
use xelma_blockchain.Replay.Refinement.Fee.{winnings-IsFee}
use xelma_blockchain.Replay.Refinement.Cases.{
  Agrees, up-ltb, down-ltb, refunds-Agrees, awards-Agrees,
}
use xelma_blockchain.Replay.Refinement.Outcome.{recorded}

module _ (env : Env) (round : Round) (u d final_price : ℕ) (oracle : OracleTranscript)
    (expected : ExpectedOutcome) (s : Storage) where
  abbrev t : RoundTranscript
  t = recorded round final_price oracle expected s

  abbrev bps : Option ℕ
  bps = _read_protocol_fee_bps s

  abbrev users : List ℕ
  users = sort_addresses (participants_of s round.round_id)

  abbrev direction : PriceDirection
  direction = classify_price_direction round.price_start final_price

  module _ (up_is : round.pool_up ≡ pos u) (down_is : round.pool_down ≡ pos d)
      (ne : is_empty t.participants ≡ false) (same : oracle.round_id ≡ round.round_id)
      (fits : FitsRate bps (u + d)) where
    abbrev FeeOf : PriceDirection → ℤ → Type 0
    FeeOf unchanged fee = Unit
    FeeOf up fee = fee ≡ pos (fee_of bps (u + d))
    FeeOf down fee = fee ≡ pos (fee_of bps (u + d))

    module _ (some_up : u ≢ 0) (some_down : d ≢ 0) (model : _read_fee_model s ≡ fee_on_pot) where
      direction-FeeOf :
          (dir : PriceDirection) (us : List ℕ)
          → us ≢ []
          → Ensures (λ (fee, s'). FeeOf dir fee) (resolve_by_direction env round dir us s)
      unfolding resolve_by_direction
      direction-FeeOf dir [] h = absurd (h refl)
      direction-FeeOf unchanged (x ∷ us) h =
          Ensures-bind _ (_record_refunds_indexed env round.round_id 0 (x ∷ us) s) _ (λ s' e. tt)
      direction-FeeOf up (x ∷ us) h =
          rw (up_is, down_is)
            (winnings-IsFee s u d model (FitsRate-IsRate bps (u + d) fits) env round.round_id
              (x ∷ us) bet_up some_up)
      direction-FeeOf down (x ∷ us) h =
          rw (up_is, down_is, add_comm u d)
            (winnings-IsFee s d u model (FitsRate-IsRate bps (u + d) fits) env round.round_id
              (x ∷ us) bet_down some_down)

      Decided-Agrees :
          (dir : PriceDirection) (s' : Storage) (fee : ℤ)
          → direction ≡ dir
          → All (IsPayable (u + d)) (map position_row t.participants)
          → Decided round dir users s (fee, s')
          → FeeOf dir fee
          → (r : ReplayResult) × Agrees t s s' fee r
      Decided-Agrees unchanged s' fee e payable decided is_fee =
          refunds-Agrees round u d final_price oracle expected s up_is down_is ne same fits s' fee
            (rw e refl) decided
      Decided-Agrees up s' fee e payable decided is_fee =
          let rose = up-ltb round.price_start final_price e in
          awards-Agrees round u d final_price oracle expected s up_is down_is ne same fits true u d
            s' fee refl is_fee
            (rw (up_is, down_is)
              (rw rose at (
                compute_updown_payouts_total (map position_row t.participants) round.price_start
                  final_price u d bps (ground arith) (omega arith) (omega arith) fits payable)))
            (rw (up_is, down_is) at decided)
      Decided-Agrees down s' fee e payable decided is_fee =
          let (fell, moved) = down-ltb round.price_start final_price e in
          awards-Agrees round u d final_price oracle expected s up_is down_is ne same fits false d u
            s' fee (add_comm d u) is_fee
            (rw (up_is, down_is)
              (rw fell at (
                compute_updown_payouts_total (map position_row t.participants) round.price_start
                  final_price u d bps moved (omega arith) (omega arith) fits payable)))
            (rw (up_is, down_is) at decided)

    users_listed : users ≢ []
    users_listed h = none_listed users h ne
      where
        none_listed :
            (us : List ℕ)
            → us ≡ []
            → is_empty (rows 0 (s.rounds.position round.round_id) us) ≡ false
            → ⊥
        none_listed [] e k = cc
        none_listed (x ∷ us) e k = cc

    FeeOf-call :
        (r : (Bool × ℤ) × Storage)
        → is_one_sided_pool round.pool_up round.pool_down ≡ false
        → u ≢ 0
        → d ≢ 0
        → _read_fee_model s ≡ fee_on_pot
        → _resolve_updown_mode env round final_price s ≡ ok r
        → FeeOf direction r.0.1
    unfolding _resolve_updown_mode
    FeeOf-call r both some_up some_down model live =
        Ensures-ok (λ ((one_sided, fee), s'). FeeOf direction fee) _
          (rw both (
            Ensures-bind _ (resolve_by_direction env round direction users s) _ (λ q e.
              Ensures-ok _ _ (direction-FeeOf some_up some_down model direction users users_listed)
                e)))
          live

-- Under the fee-on-pot model, with pools that are not negative and not both empty, and where no product
-- of the settlement overflows: if the live resolution of an up/down round returns, the replay of the
-- round's transcript returns too, with the fee that the protocol has taken, and the pending winnings of
-- each user have grown by exactly the user's payouts in the replay. The transcript has the round's prices
-- and pools, the stored fee rate, and a row for each stored participant with a position, at least one.
pub _resolve_updown_mode-refines-replay_round :
    (env : Env) (round : Round) (u d final_price : ℕ) (oracle : OracleTranscript)
    (expected : ExpectedOutcome) (s : Storage) {one_sided : Bool} {fee : ℤ} {s' : Storage}
    → round.pool_up ≡ pos u
    → round.pool_down ≡ pos d
    → 0 < u + d
    → oracle.round_id ≡ round.round_id
    → _read_fee_model s ≡ fee_on_pot
    → FitsRate (_read_protocol_fee_bps s) (u + d)
    → is_empty (recorded round final_price oracle expected s).participants ≡ false
    → All
        (IsPayable (u + d))
        (map position_row (recorded round final_price oracle expected s).participants)
    → _resolve_updown_mode env round final_price s ≡ ok ((one_sided, fee), s')
    → (r : ReplayResult) × Agrees (recorded round final_price oracle expected s) s s' fee r
_resolve_updown_mode-refines-replay_round env round u d final_price oracle expected s
      {one_sided = one_sided} {fee = fee} {s' = s'} up_is down_is h same model fits ne payable
      live =
    let (o, r) = _resolve_updown_mode-Resolved env round u d final_price s up_is down_is h live in
    elim (Bool-cases (is_one_sided_pool round.pool_up round.pool_down)) [
      | inl one ↦
          refunds-Agrees round u d final_price oracle expected s up_is down_is ne same fits s' fee
            (rw one
              (either (is_unchanged (classify_price_direction round.price_start final_price))))
            (rw (o, one) at r)
      | inr both ↦
          let (some_up, some_down) = both_some u d h (rw (up_is, down_is) at both) in
          Decided-Agrees env round u d final_price oracle expected s up_is down_is ne same fits
            some_up some_down model (classify_price_direction round.price_start final_price) s' fee
            refl payable (rw (o, both) at r)
            (FeeOf-call env round u d final_price oracle expected s up_is down_is ne same fits
              ((one_sided, fee), s') both some_up some_down model live)
    ]
  where
    either : (b : Bool) → (b || true) ≡ true
    either true = refl
    either false = refl
