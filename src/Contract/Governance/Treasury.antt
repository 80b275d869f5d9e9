-- ===== src/Contract/Governance/Treasury.antt =====
-- What the treasury-address action of contracts/src/governance.rs does to the fee collection of
-- contracts/src/config.rs.
