-- ===== src/Crypto.antt =====
-- The hash structures of crates/sccgub-crypto.
pub mod Merkle
