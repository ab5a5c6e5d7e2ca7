-- ===== src/Tests.antt =====
-- Runs of the models at concrete inputs.
pub mod Balances
pub mod Escrow
pub mod Assets
pub mod Ledgers
pub mod Consensus
pub mod Certificates
pub mod Keys
pub mod Encodings
pub mod Validators
pub mod Metering
pub mod Governance
pub mod Merkle
pub mod ViewChange
pub mod Mempool
pub mod Limits
pub mod Laws
pub mod Blocks
pub mod Rotations
