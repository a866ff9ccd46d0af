-- ===== src/Transport/Channel.antt =====
-- crates/akurai-transport: the channel as a whole, from the handshake to the packets.
use akur_ai_vpn.Base.{ℕ, ◌^◌, ◌<◌, ◌≡◌, refl, List, some, map, length}
use akur_ai_vpn.Base.Arrays.{IsArray}
use akur_ai_vpn.Crypto.X25519.Agreement.{Commutes}
use akur_ai_vpn.Crypto.X25519.{public_key}
use akur_ai_vpn.Transport.Exchange.{curve25519}
use akur_ai_vpn.Transport.Aead.{Aead}
use akur_ai_vpn.Transport.Noise.{from_secret, initiate, respond, finalize}
use akur_ai_vpn.Transport.Noise.Agreement.{handshake-agrees}
use akur_ai_vpn.Transport.Session.{TransportKeys, new, decrypt_all}
use akur_ai_vpn.Transport.Session.Delivery.{encrypt_all, decrypt_all-encrypt_all}

-- The packets `ms` of a new session under the keys `from` are read in a new session under `to`.
abbrev pub Delivers : Aead → TransportKeys → TransportKeys → List (List ℕ) → Type 0
Delivers aead from to ms =
    (decrypt_all aead (new to) (encrypt_all aead (new from) ms).0).0 ≡ map some ms

-- Let the initiator know the responder's key, let the four secrets have 32 bytes each, and let the
-- multiples of the base point by their secrets commute on the curve of RFC 7748, for the four pairs
-- that the handshake exchanges. Then the two devices can talk over X25519 and any cipher that opens
-- what it seals: both ends finish the handshake, and what either end then encrypts in a new session,
-- fewer than 2 ^ 64 packets, the other reads in order.
pub handshake-Delivers :
    (aead : Aead) (i r ei er : List ℕ) (ms : List (List ℕ))
    → IsArray 32 i
    → IsArray 32 r
    → IsArray 32 ei
    → IsArray 32 er
    → Commutes r ei
    → Commutes r i
    → Commutes ei er
    → Commutes i er
    → length ms < 2 ^ 64
    → let (state, msg1) = initiate aead curve25519 (from_secret curve25519 i) (public_key r) ei in
      (responder initiator : TransportKeys) × (msg2 : List ℕ) × (respond aead curve25519
          (from_secret curve25519 r)
          er
          msg1
        ≡ some (responder, msg2, public_key i))
      × (finalize aead curve25519 state msg2 ≡ some initiator)
      × Delivers aead initiator responder ms
      × Delivers aead responder initiator ms
handshake-Delivers aead i r ei er ms hi hr hei her es ss ee se h =
    let (keys, msg2, answered, finished) =
      handshake-agrees aead i r ei er hi hr hei her es ss ee se in
    let mirrored : TransportKeys = record { send = keys.recv; recv = keys.send } in
    (
      keys,
      mirrored,
      msg2,
      answered,
      finished,
      decrypt_all-encrypt_all aead mirrored keys ms refl h,
      decrypt_all-encrypt_all aead keys mirrored ms refl h,
    )
