-- ===== src/Node.antt =====
-- The node: crates/sccgub-node.
pub mod Mempool
