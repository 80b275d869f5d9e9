-- ===== src/Lib.antt =====
-- Verification library of the XLM price prediction market (a Soroban contract in Rust).
--
-- Participants stake virtual XLM on a round: in an up/down round on the direction of the price, in a
-- precision round on the price itself. When the oracle reports the final price the contract
-- classifies the outcome, takes a protocol fee and pays the winners from the pot.
--
-- Files and the code they model:
--   Prelude, Prelude/Tests, Prelude/Lists: shared names, Boolean tests, lists over native numbers.
--   Int: integers. Machine, Machine/Laws: the checked and saturating operations on i128 and unsigned
--     words. Addition, subtraction and multiplication are exact on the integers and then tested
--     against the range; nothing wraps silently.
--   Errors: contracts/src/errors.rs; the result of a call is a value, an error code or a trap.
--   SettlementMath: contracts/src/settlement_math.rs and contracts/src/math_common.rs.
--     Common: payout_add, payout_mul, classify_price_direction, is_one_sided_pool.
--     Fees: compute_updown_fee, compute_precision_fee. UpDown: compute_updown_payouts.
--     Precision: find_precision_winners, with and without a policy.
--     Pot: split_pot_among_winners, split_pot_stake_weighted.
--     PrecisionPayouts: compute_precision_payouts, with and without policies.
--     Below each stand the modules named for what they prove.
--   SettlementMath/Oracle: the deviation, the sort and the median of prices, and total_pot_precision, of
--     contracts/src/settlement_math.rs.
--   Contract/State: the storage of contracts/src/types.rs, grouped in records; a map is a function from
--     keys to optional values. A call takes the storage and returns the storage after it, an error code
--     or a trap; a call that fails keeps the old storage, as the host does. Times to live and events are
--     not modelled. An address, a hash and a ledger number are natural numbers.
--   Contract/Admin: the gates of contracts/src/admin.rs. Contract/AccessControl:
--     contracts/src/access_control.rs. Contract/Balances: contracts/src/common.rs.
--   Contract/Claims: claim_winnings and claim_many of contracts/src/settlement.rs, and
--     reclaim_expired_pending_winnings of contracts/src/admin.rs.
--   Contract/Fees: the protocol fee of contracts/src/config.rs and the insurance fund's part of it.
--   Contract/Insurance: contracts/src/insurance.rs. Contract/Governance: the proposals of
--     contracts/src/governance.rs; Steps is their step relation, where every other entry point is a step
--     that leaves the proposals alone.
--   Contract/Constitution: the amendments of contracts/src/governance.rs.
--   Contract/Betting, Contract/Rounds, Contract/Predictions, Contract/CashOut: contracts/src/betting.rs.
--     SHA-256 is a parameter of the reveal.
--   Contract/Settlement: _record_refunds_indexed and _record_winnings_indexed of
--     contracts/src/settlement.rs. Contract/Resolution: its
--     _resolve_updown_mode. Contract/Leaderboard: the statistics and the bounded indexes of
--     contracts/src/leaderboard.rs that they update.
--   Contract/PrecisionResolution: _resolve_precision_mode and _calculate_precision_payouts of
--     contracts/src/settlement.rs; Nearest describes the winners in two passes, Placing and Scanning have the
--     loop of the source. Contract/Archive: _archive_round and what is cleared of a round. Contract/Disputes:
--     _settle_round_with_price, _complete_settlement and _refund_under_threshold; Disputes/Calls: void_round
--     and finalize_round. Contract/Cancellation: cancel_round, with what the insurance fund covers, which
--     is Insurance/Coverage of contracts/src/insurance.rs.
--   Contract/Settings, Contract/Config: the configuration of contracts/src/config.rs. Timelock has the
--     scheduled changes, Setters those that take effect at once. Each arm of _apply_config_payload is a
--     check (validate_payload) and a write (write_payload); the setters share them. Delay has the sequences
--     of calls, where an entry point that leaves the pending changes alone is one step.
--   OracleCommittee: contracts/src/oracle_committee.rs.
--   Replay: replay-engine/src. Transcript, Engine and Diagnostics are its files of those names; Refinement
--     sets the live settlement of an up/down round against the replay of its transcript.
--   Tests: small inputs, and the theorems applied to them.
--
-- Not modelled: attestation and heartbeat, the legacy positions of the
-- feature legacy-map-settlement, which is off by default, the entry points of
-- contracts/src/settlement.rs that check the oracle, queries,
-- and the parsing of transcripts.
-- Loops over slices and vectors are structural recursion on lists, so no fuel is used. An index or a
-- count is a usize taken as a natural number; an index out of range is a trap.
pub mod Prelude
pub mod Int
pub mod Machine
pub mod Errors
pub mod SettlementMath
pub mod Contract
pub mod OracleCommittee
pub mod Replay
pub mod Tests
