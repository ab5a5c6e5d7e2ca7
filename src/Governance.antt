-- ===== src/Governance.antt =====
-- Governance: the proposal registry.
pub mod Proposals
pub mod Containment
pub mod Concentration
