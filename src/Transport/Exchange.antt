-- ===== src/Transport/Exchange.antt =====
-- The exchange that the handshake uses: X25519 of crates/akurai-crypto.
use akur_ai_vpn.Crypto.X25519.Agreement.{public_key-IsArray}
use akur_ai_vpn.Crypto.X25519.{public_key, shared_secret}
use akur_ai_vpn.Transport.Noise.{Dh}

abbrev pub curve25519 : Dh
curve25519 = record {
  public_key = public_key;
  shared_secret = shared_secret;
  length-public_key = λ a. (public_key-IsArray a).size;
}
