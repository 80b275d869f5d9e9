-- ===== src/Contract/Betting/Pools.antt =====
-- The pools of the active round are what its participants have staked: `place_bet` of
-- contracts/src/betting.rs keeps it so.
use xelma_blockchain.Prelude.{
  some-injective, ℕ, ◌≡◌, ◌≢◌, refl, sym, ap, subst, ◌∙◌, true, Option, none, some, List, [], ◌∷◌,
  ◌++◌, All, if◌then◌else◌,
}
use xelma_blockchain.Int.{ℤ, pos, ◌+ℤ◌, sum_ℤ, int_laws}
use xelma_blockchain.Errors.{ok}
use xelma_blockchain.Contract.State.{
  Env, Map, put, put-same, put-other, put-in_round-same, is_some, Storage, Round, BetSide, bet_up,
  bet_down, side_is, UserPosition,
}
use xelma_blockchain.Contract.Betting.{place_bet, participants_of}
use xelma_blockchain.Contract.Betting.Placement.{pool, Placed, PoolGrown, place_bet-Placed}

-- What a position stakes on a side.
abbrev position_stake : BetSide → Option UserPosition → ℤ
position_stake side none = pos 0
position_stake side (some p) = if side_is p.side side then p.amount else pos 0

abbrev staked : BetSide → Map UserPosition → List ℕ → ℤ
staked side m users = sum_ℤ (λ u. position_stake side (m u)) users

-- Each pool of the round is what its participants have staked on that side, and every participant has
-- a position.
pub record Backed (s : Storage) (round : Round) : Type 0 where
  pub up_pool :
      round.pool_up
      ≡ staked bet_up (s.rounds.position round.round_id) (participants_of s round.round_id)
  pub down_pool :
      round.pool_down
      ≡ staked bet_down (s.rounds.position round.round_id) (participants_of s round.round_id)
  pub placed :
      All
        (λ u. is_some (s.rounds.position round.round_id u) ≡ true)
        (participants_of s round.round_id)

module _ (m : Map UserPosition) (user : ℕ) (p : UserPosition) (free : m user ≡ none) where
  apart : (u : ℕ) → is_some (m u) ≡ true → u ≢ user
  apart u h e = cc (ap m e)

  staked-others :
      (side : BetSide) (users : List ℕ)
      → All (λ u. is_some (m u) ≡ true) users
      → staked side (put m user p) users ≡ staked side m users
  staked-others side [] h = refl
  staked-others side (u ∷ users) (h, hs) =
      rw (put-other m user p u (apart u h), staked-others side users hs)

  staked-append :
      (side : BetSide) (users : List ℕ)
      → All (λ u. is_some (m u) ≡ true) users
      → staked side (put m user p) (users ++ user ∷ [])
        ≡ staked side m users +ℤ position_stake side (some p)
  staked-append side [] h = rw (put-same m user p) (omega int_laws)
  staked-append side (u ∷ users) (h, hs) =
      rw (put-other m user p u (apart u h), staked-append side users hs) (omega int_laws)

  placed-append :
      (users : List ℕ)
      → All (λ u. is_some (m u) ≡ true) users
      → All (λ u. is_some (put m user p u) ≡ true) (users ++ user ∷ [])
  placed-append [] h = (ap is_some (put-same m user p), tt)
  placed-append (u ∷ users) (h, hs) =
      (rw (put-other m user p u (apart u h)) h, placed-append users hs)

add_zero : (a : ℤ) → a ≡ a +ℤ pos 0
add_zero a = omega int_laws

-- Either pool of the grown round, with the new position counted.
pool-grown :
    (side q : BetSide) (amount : ℤ) (round round' : Round)
    → PoolGrown side amount round round'
    → pool q round'
      ≡ pool q round +ℤ position_stake q (some (record { amount = amount; side = side }))
pool-grown bet_up bet_up amount round round' g = g.grows
pool-grown bet_up bet_down amount round round' g = g.keeps_other ∙ add_zero round.pool_down
pool-grown bet_down bet_up amount round round' g = g.keeps_other ∙ add_zero round.pool_up
pool-grown bet_down bet_down amount round round' g = g.grows

module _ (env : Env) (user : ℕ) (amount : ℤ) (side : BetSide) (s s' : Storage)
    (c : Placed env user amount side s s') (b : Backed s c.round) where
  abbrev round_id : ℕ
  round_id = c.round.round_id

  abbrev positions : Map UserPosition
  positions = s.rounds.position round_id

  abbrev bet : UserPosition
  bet = record { amount = amount; side = side }

  positions-after : s'.rounds.position round_id ≡ put positions user bet
  positions-after =
      ap (λ m. m round_id) c.positions
      ∙ put-in_round-same positions user s.rounds.position round_id bet

  pool-before : (q : BetSide) → pool q c.round ≡ staked q positions (participants_of s round_id)
  pool-before bet_up = b.up_pool
  pool-before bet_down = b.down_pool

  pool-after :
      (q : BetSide)
      → pool q c.round' ≡ staked q (s'.rounds.position round_id) (participants_of s' round_id)
  pool-after q =
      rw
        (
          positions-after,
          c.listed,
          staked-append positions user bet c.was_free q (participants_of s round_id) b.placed,
          sym (pool-before q),
        )
        (pool-grown side q amount c.round c.round' c.grown)

  placed-after :
      All (λ u. is_some (s'.rounds.position round_id u) ≡ true) (participants_of s' round_id)
  placed-after =
      rw (positions-after, c.listed)
        (placed-append positions user bet c.was_free (participants_of s round_id) b.placed)

  bet-Backed : Backed s' c.round'
  bet-Backed = record {
    up_pool = rw (c.grown.keeps_id) (pool-after bet_up);
    down_pool = rw (c.grown.keeps_id) (pool-after bet_down);
    placed = rw (c.grown.keeps_id) placed-after;
  }

-- If each pool of the active round is what its participants have staked on that side, and every
-- participant has a position, the same holds of the active round after any bet that is accepted.
pub place_bet-Backed :
    (env : Env) (user : ℕ) (amount : ℤ) (side : BetSide) (s : Storage) (round : Round)
    {s' : Storage}
    → s.rounds.active_round ≡ some round
    → Backed s round
    → place_bet env user amount side s ≡ ok s'
    → (round' : Round) × (s'.rounds.active_round ≡ some round') × Backed s' round'
place_bet-Backed env user amount side s round {s' = s'} active b h =
    let c = place_bet-Placed env user amount side s h in
    let same = some-injective (sym active ∙ c.was_active) in
    (c.round', c.is_active, bet-Backed env user amount side s s' c (subst (Backed s) same b))
