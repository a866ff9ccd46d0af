-- ===== src/Crypto.antt =====
-- crates/akurai-crypto: the primitives of the encrypted sessions.
pub mod Word
pub mod Chacha20
pub mod Poly1305
pub mod Chacha20Poly1305
pub mod Blake2s
pub mod Hkdf
pub mod Field25519
pub mod X25519
