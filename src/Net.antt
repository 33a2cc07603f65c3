-- ===== src/Net.antt =====
-- The network layer, crates/rskynet-net/src.
pub mod Buffer
pub mod Sockets
