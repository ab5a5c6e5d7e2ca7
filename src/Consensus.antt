-- ===== src/Consensus.antt =====
-- Voting and finality: crates/sccgub-consensus.
pub mod Quorum
pub mod Protocol
pub mod Safety
pub mod Finality
pub mod ForkChoice
pub mod Slashing
pub mod ViewChange
pub mod LawSync
pub mod Partition
