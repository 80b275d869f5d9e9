-- ===== src/Tests/Committee.antt =====
-- The committee of contracts/src/oracle_committee.rs on small inputs.
use xelma_blockchain.Prelude.{ℕ, ◌≡◌, refl, true, false, List, [], ◌∷◌, arith, sum_by}
use xelma_blockchain.Int.{ℤ, pos}
use xelma_blockchain.Errors.{ok}
use xelma_blockchain.OracleCommittee.{
  CommitteeMember, FeederReport, AggregatedOraclePrice, aggregate_reports, slash_feeder,
}
use xelma_blockchain.OracleCommittee.Quorum.{report_weight, aggregate_reports-weight}

abbrev member : ℕ → ℕ → CommitteeMember
member feeder stake = record {
  feeder = feeder;
  stake = pos stake;
  active = true;
  registered_at = 0;
}

abbrev report : ℕ → ℕ → FeederReport
report feeder price = record { feeder = feeder; price = pos price; timestamp = 5 }

abbrev two_members : List CommitteeMember
two_members = member 1 10 ∷ member 2 25 ∷ []

-- Feeder 1 alone, with two reports, reaches the half of the stake.
abbrev repeated : AggregatedOraclePrice
repeated = record { price = pos 100; total_stake_weight = pos 20; quorum_reached = true }

one_feeder_twice :
    aggregate_reports (report 1 100 ∷ report 1 90 ∷ []) two_members 5_000 ≡ ok repeated
unfolding aggregate_reports xelma_blockchain.OracleCommittee.active_stake
    xelma_blockchain.Machine.saturating_add xelma_blockchain.Int.◌+ℤ◌
    xelma_blockchain.Machine.checked_mul xelma_blockchain.Int.◌*ℤ◌
    xelma_blockchain.OracleCommittee.tally_reports xelma_blockchain.OracleCommittee.tally_members
    xelma_blockchain.OracleCommittee.tally_member
one_feeder_twice = refl

slash_all :
    slash_feeder (member 1 10) (pos 30)
    ≡ ok (pos 10, record (member 1 10) { stake = pos 0; active = false })
unfolding slash_feeder xelma_blockchain.Machine.saturating_sub xelma_blockchain.Int.◌-ℤ◌
slash_all = refl

aggregate_reports-weight_example :
    repeated.total_stake_weight
    ≡ pos (sum_by (report_weight two_members) (report 1 100 ∷ report 1 90 ∷ []))
aggregate_reports-weight_example =
    aggregate_reports-weight (report 1 100 ∷ report 1 90 ∷ []) two_members 5_000
      (omega arith, (omega arith, tt)) (omega arith) one_feeder_twice
