-- ===== src/Core.antt =====
-- The kernel, crates/rskynet-core/src: what services share on one node.
pub mod Error
pub mod Session
pub mod Handles
pub mod Tasks
pub mod Mailbox
pub mod Message
pub mod Node
pub mod Service
pub mod Monitor
pub mod Bwos
