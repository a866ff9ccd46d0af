-- ===== src/Transport.antt =====
-- crates/akurai-transport: the encrypted sessions between nodes.
pub mod Aead
pub mod Session
pub mod Cipher
pub mod Noise
pub mod Exchange
pub mod Channel
