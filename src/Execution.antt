-- ===== src/Execution.antt =====
-- Metering of execution: crates/sccgub-execution.
pub mod Gas
pub mod Admission
