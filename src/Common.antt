-- ===== src/Common.antt =====
-- crates/akurai-common: the value types that the other crates share.
pub mod Frame
pub mod Cidr
pub mod Policy
pub mod Overlay
pub mod Base64
