-- ===== src/Control.antt =====
-- crates/akurai-control: the control plane.
pub mod VpnEndpoint
pub mod Ipam
pub mod Heartbeat
pub mod Registry
pub mod Json
pub mod PeerMap
