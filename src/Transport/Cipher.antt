-- ===== src/Transport/Cipher.antt =====
-- The cipher that sessions use: crates/akurai-crypto's ChaCha20-Poly1305 meets what they need of it.
use akur_ai_vpn.Crypto.Chacha20Poly1305.{seal, unseal}
use akur_ai_vpn.Crypto.Chacha20Poly1305.RoundTrip
use akur_ai_vpn.Transport.Aead.{Aead}

abbrev pub chacha20poly1305 : Aead
chacha20poly1305 = record {
  seal = seal;
  unseal = unseal;
  unseal-seal = RoundTrip.unseal-seal;
  length-seal = RoundTrip.length-seal;
}
