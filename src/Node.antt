-- ===== src/Node.antt =====
-- crates/akurai-node: the node daemon.
pub mod Peers
pub mod Acl
pub mod Paths
pub mod Tunnel
pub mod Echo
