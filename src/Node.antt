-- ===== src/Node.antt =====
-- The node agent (node-rs/src).
pub mod Admission
pub mod Paths
pub mod Auth
pub mod Integrity
pub mod Replication
pub mod Tests
pub mod Ports
pub mod Warm
pub mod Env
pub mod Studio
