-- ===== src/Transport/Aead.antt =====
-- What the secure channel needs of its cipher: the operations that `session.rs` and `noise.rs` call, and
-- the laws of them that they rely on.
use akur_ai_vpn.Base.{ℕ, ◌+◌, length, ◌≡◌, List, Option, some}

pub record Aead : Type 0 where
  pub seal : (key nonce aad plaintext : List ℕ) → List ℕ
  pub unseal : (key nonce aad ciphertext : List ℕ) → Option (List ℕ)
  pub unseal-seal :
      (key nonce aad plaintext : List ℕ)
      → unseal key nonce aad (seal key nonce aad plaintext) ≡ some plaintext
  pub length-seal :
      (key nonce aad plaintext : List ℕ)
      → length (seal key nonce aad plaintext) ≡ length plaintext + 16
