-- ===== src/OracleCommittee.antt =====
-- The stake-weighted committee of price feeders, contracts/src/oracle_committee.rs, which no entry point calls.
pub mod Quorum
use xelma_blockchain.Prelude.{
  ℕ, Bool, true, false, ◌&&◌, Option, none, some, List, [], ◌∷◌, ◌==◌, if◌then◌else◌,
}
use xelma_blockchain.Int.{ℤ, pos, eqb_ℤ, leb_ℤ, min_ℤ}
use xelma_blockchain.Machine.{checked_mul, saturating_add, saturating_sub, quot}
use xelma_blockchain.Errors.{Result, ok, err, or_panic, ◌>>=◌, invalid_amount}
use xelma_blockchain.SettlementMath.Pot.{is_empty}
use xelma_blockchain.Contract.State.{unwrap_or}

pub record CommitteeMember : Type 0 where
  pub feeder : ℕ
  pub stake : ℤ
  pub active : Bool
  pub registered_at : ℕ

pub record FeederReport : Type 0 where
  pub feeder : ℕ
  pub price : ℤ
  pub timestamp : ℕ

pub record AggregatedOraclePrice : Type 0 where
  pub price : ℤ
  pub total_stake_weight : ℤ
  pub quorum_reached : Bool

-- The first loop.
unfoldable pub active_stake : ℤ → List CommitteeMember → ℤ
active_stake total [] = total
active_stake total (m ∷ members) =
    active_stake (if m.active then saturating_add total m.stake else total) members

-- The variables of the second loop: the stake that takes part, and the price.
abbrev pub Tally : Type 0
Tally = ℤ × Option ℤ

-- The first price stays.
abbrev pub keep_price : ℤ → Option ℤ → Option ℤ
keep_price price none = some price
keep_price price (some first) = some first

unfoldable pub tally_member : FeederReport → CommitteeMember → Tally → Tally
tally_member report member (participating, price) =
    if member.feeder == report.feeder && member.active
    then (saturating_add participating member.stake, keep_price report.price price)
    else (participating, price)

unfoldable pub tally_members : FeederReport → List CommitteeMember → Tally → Tally
tally_members report [] tally = tally
tally_members report (member ∷ members) tally =
    tally_members report members (tally_member report member tally)

unfoldable pub tally_reports : List FeederReport → List CommitteeMember → Tally → Tally
tally_reports [] members tally = tally
tally_reports (report ∷ reports) members tally =
    tally_reports reports members (tally_members report members tally)

-- The stakes are summed up without a trap; the product for the quorum is not.
unfoldable pub aggregate_reports :
    List FeederReport → List CommitteeMember → ℕ → Result AggregatedOraclePrice
aggregate_reports reports members required_quorum_bps =
    let total_active_stake = active_stake (pos 0) members in
    if is_empty reports
    then err invalid_amount
    else if eqb_ℤ total_active_stake (pos 0)
    then err invalid_amount
    else (do
      let (participating, price) = tally_reports reports members (pos 0, none)
      product ← or_panic (checked_mul total_active_stake (pos required_quorum_bps))
      ok (record {
        price = unwrap_or price (pos 0);
        total_stake_weight = participating;
        quorum_reached = leb_ℤ (quot product 10_000) participating;
      }))

-- What is taken, and the member after.
unfoldable pub slash_feeder : CommitteeMember → ℤ → Result (ℤ × CommitteeMember)
slash_feeder member slash_amount =
    let actual_slash = min_ℤ member.stake slash_amount in
    let rest = saturating_sub member.stake actual_slash in
    ok (
      actual_slash,
      record member { stake = rest; active = if eqb_ℤ rest (pos 0) then false else member.active },
    )
