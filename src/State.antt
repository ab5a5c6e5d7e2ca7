-- ===== src/State.antt =====
-- The ledgers of crates/sccgub-state.
pub mod World
pub mod KeyRotationState
pub mod Apply
pub mod Fees
pub mod BlockEconomics
pub mod ValidatorRecords
pub mod ValidatorSetState
pub mod Entries
pub mod Balances
pub mod Treasury
pub mod Escrow
pub mod Assets
