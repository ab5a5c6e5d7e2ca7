-- ===== src/Types.antt =====
-- The shared types of crates/sccgub-types that the other components compute with.
pub mod Sorted
pub mod KeyRotation
pub mod Governance
pub mod Tension
pub mod ValidatorSet
pub mod Transition
pub mod Economics
