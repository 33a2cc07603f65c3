-- ===== src/Cluster.antt =====
-- The links between nodes, crates/rskynet-cluster/src.
pub mod Wire
