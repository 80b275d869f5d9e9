-- ===== src/OracleCommittee/Quorum.antt =====
-- What `aggregate_reports` of contracts/src/oracle_committee.rs counts for the quorum.
use xelma_blockchain.Prelude.{
  ℕ, ◌+◌, ◌<◌, ◌≡◌, refl, ap, ◌∙◌, inl, inr, ◌&&◌, none, List, [], ◌∷◌, arith, All, sum_by, ◌==◌,
  if◌then◌else◌, Bool-cases,
}
use xelma_blockchain.Int.{pos, pos_part, nonneg-eq, ◌+ℤ◌, eqb_ℤ}
use xelma_blockchain.Machine.{i128_half, saturating_add, checked_mul}
use xelma_blockchain.Errors.{ok, or_panic, Ensures, Ensures-ok, Ensures-bind, Ensures-if}
use xelma_blockchain.SettlementMath.Pot.{is_empty}
use xelma_blockchain.SettlementMath.Pot.Weighted.{IsStake}
use xelma_blockchain.OracleCommittee.{
  CommitteeMember, FeederReport, AggregatedOraclePrice, Tally, active_stake, tally_member,
  tally_members, tally_reports, aggregate_reports,
}

-- What one report adds of one member's stake, and of all.
abbrev pub weight : FeederReport → CommitteeMember → ℕ
weight report member =
    if member.feeder == report.feeder && member.active then pos_part member.stake else 0

abbrev pub report_weight : List CommitteeMember → FeederReport → ℕ
report_weight members report = sum_by (weight report) members

saturating_add_fits : (a b : ℕ) → a + b < i128_half → saturating_add (pos a) (pos b) ≡ pos (a + b)
unfolding saturating_add ◌+ℤ◌
saturating_add_fits a b h = ground arith

tally_member-weight :
    (report : FeederReport) (member : CommitteeMember) (tally : Tally) (n : ℕ)
    → tally.0 ≡ pos n
    → IsStake member.stake
    → n + weight report member < i128_half
    → (tally_member report member tally).0 ≡ pos (n + weight report member)
unfolding tally_member
tally_member-weight report member (t, price) n e h fits =
    elim (Bool-cases (member.feeder == report.feeder && member.active)) [
      | inl counted ↦
          rw (counted, e, nonneg-eq member.stake h)
            (saturating_add_fits n (pos_part member.stake) (rw counted at fits))
      | inr other ↦ rw (other, e) (ap pos (omega arith))
    ]

tally_members-weight :
    (report : FeederReport) (members : List CommitteeMember) (tally : Tally) (n : ℕ)
    → tally.0 ≡ pos n
    → All (λ m. IsStake m.stake) members
    → n + report_weight members report < i128_half
    → (tally_members report members tally).0 ≡ pos (n + report_weight members report)
unfolding tally_members
tally_members-weight report [] tally n e h fits = e ∙ ap pos (omega arith)
tally_members-weight report (m ∷ members) tally n e (h, hs) fits =
    tally_members-weight report members (tally_member report m tally) (n + weight report m)
      (tally_member-weight report m tally n e h (omega arith)) hs (omega arith)
    ∙ ap pos (omega arith)

tally_reports-weight :
    (reports : List FeederReport) (members : List CommitteeMember) (tally : Tally) (n : ℕ)
    → tally.0 ≡ pos n
    → All (λ m. IsStake m.stake) members
    → n + sum_by (report_weight members) reports < i128_half
    → (tally_reports reports members tally).0 ≡ pos (n + sum_by (report_weight members) reports)
unfolding tally_reports
tally_reports-weight [] members tally n e h fits = e ∙ ap pos (omega arith)
tally_reports-weight (r ∷ reports) members tally n e h fits =
    tally_reports-weight reports members (tally_members r members tally)
      (n + report_weight members r) (tally_members-weight r members tally n e h (omega arith)) h
      (omega arith)
    ∙ ap pos (omega arith)

abbrev Weighs : List FeederReport → List CommitteeMember → AggregatedOraclePrice → Type 0
Weighs reports members r = r.total_stake_weight ≡ pos (sum_by (report_weight members) reports)

aggregate-Ensures :
    (reports : List FeederReport) (members : List CommitteeMember) (bps : ℕ)
    → All (λ m. IsStake m.stake) members
    → sum_by (report_weight members) reports < i128_half
    → Ensures (Weighs reports members) (aggregate_reports reports members bps)
unfolding aggregate_reports
aggregate-Ensures reports members bps h fits =
    Ensures-if _ (is_empty reports) _ _ (λ z. tt)
      (λ z.
        Ensures-if _ (eqb_ℤ (active_stake (pos 0) members) (pos 0)) _ _ (λ z. tt)
          (λ z.
            Ensures-bind _ (or_panic (checked_mul (active_stake (pos 0) members) (pos bps))) _
              (λ product e.
                tally_reports-weight reports members (pos 0, none) 0 refl h (omega arith)
                ∙ ap pos (omega arith))))

-- When no member's stake is negative, and what the reports add up to is an `i128`, an aggregation that
-- returns weighs every report by the stakes of the active members with its feeder's address: a feeder that
-- reports several times counts as often.
pub aggregate_reports-weight :
    (reports : List FeederReport) (members : List CommitteeMember) (required_quorum_bps : ℕ)
    {r : AggregatedOraclePrice}
    → All (λ m. IsStake m.stake) members
    → sum_by (report_weight members) reports < i128_half
    → aggregate_reports reports members required_quorum_bps ≡ ok r
    → r.total_stake_weight ≡ pos (sum_by (report_weight members) reports)
aggregate_reports-weight reports members bps h fits e =
    Ensures-ok _ _ (aggregate-Ensures reports members bps h fits) e
