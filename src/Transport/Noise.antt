-- ===== src/Transport/Noise.antt =====
-- crates/akurai-transport/src/noise.rs: the two messages of the handshake. Arrays of fixed length are
-- lists, and what the type of an array guarantees is written as a test where the code converts.
pub mod Agreement
use akur_ai_vpn.Base.{
  ℕ, ◌≡◌, ◌==◌, Bool, not, List, [], ◌∷◌, ◌++◌, Option, none, some, ◌>>=◌, if◌then◌else◌, length,
  take, drop, replicate,
}
use akur_ai_vpn.Base.Text.{is_empty}
use akur_ai_vpn.Crypto.Blake2s.{hash}
use akur_ai_vpn.Crypto.Hkdf.{hkdf1, hkdf2}
use akur_ai_vpn.Transport.Aead.{Aead}
use akur_ai_vpn.Transport.Session.{TransportKeys}

-- The exchange that the handshake calls: its two operations, and the length of a public key.
pub record Dh : Type 0 where
  pub public_key : List ℕ → List ℕ
  pub shared_secret : List ℕ → List ℕ → List ℕ
  pub length-public_key : (a : List ℕ) → length (public_key a) ≡ 32

pub record Keypair : Type 0 where
  pub secret : List ℕ
  pub public : List ℕ

abbrev pub from_secret : Dh → List ℕ → Keypair
from_secret dh secret = record { secret = secret; public = dh.public_key secret }

-- "Noise_IK_25519_ChaChaPoly_BLAKE2s" and "AkurAI VPN v1 2026"
abbrev pub construction : List ℕ
construction =
    78 ∷ 111 ∷ 105 ∷ 115 ∷ 101 ∷ 95 ∷ 73 ∷ 75 ∷ 95 ∷ 50 ∷ 53 ∷ 53 ∷ 49 ∷ 57 ∷ 95 ∷ 67 ∷ 104 ∷ 97
    ∷ 67 ∷ 104 ∷ 97 ∷ 80 ∷ 111 ∷ 108 ∷ 121 ∷ 95 ∷ 66 ∷ 76 ∷ 65 ∷ 75 ∷ 69 ∷ 50 ∷ 115 ∷ []

abbrev pub identifier : List ℕ
identifier =
    65 ∷ 107 ∷ 117 ∷ 114 ∷ 65 ∷ 73 ∷ 32 ∷ 86 ∷ 80 ∷ 78 ∷ 32 ∷ 118 ∷ 49 ∷ 32 ∷ 50 ∷ 48 ∷ 50 ∷ 54 ∷ []

abbrev pub zero_nonce : List ℕ
zero_nonce = replicate 12 0

-- The chaining key and the transcript hash, the locals `ck` and `h` of the code.
pub record Symmetric : Type 0 where
  pub ck : List ℕ
  pub h : List ℕ

unfoldable pub mix_hash : List ℕ → List ℕ → List ℕ
mix_hash h bytes = hash (h ++ bytes)

unfoldable pub prelude : List ℕ → Symmetric
prelude responder_static_pub =
    let ck = hash construction in
    record { ck = ck; h = mix_hash (hash (ck ++ identifier)) responder_static_pub }

-- `ck = kdf1(&ck, x)`
abbrev pub mix_kdf1 : Symmetric → List ℕ → Symmetric
mix_kdf1 s x = record { ck = hkdf1 s.ck x; h = s.h }

-- `ck = kdf1(&ck, &e_pub); h = mix_hash(h, &e_pub)`
unfoldable pub mix_public : Symmetric → List ℕ → Symmetric
mix_public s e_pub = record { ck = hkdf1 s.ck e_pub; h = mix_hash s.h e_pub }

-- `let (new_ck, k) = kdf2(&ck, x); ck = new_ck`
unfoldable pub mix_kdf2 : Symmetric → List ℕ → Symmetric × List ℕ
mix_kdf2 s x = let (new_ck, k) = hkdf2 s.ck x in (record { ck = new_ck; h = s.h }, k)

-- `h = mix_hash(h, &ciphertext)`
unfoldable pub absorb : Symmetric → List ℕ → Symmetric
absorb s ciphertext = record { ck = s.ck; h = mix_hash s.h ciphertext }

pub record Initiator : Type 0 where
  pub symmetric : Symmetric
  pub static_kp : Keypair
  pub ephemeral_secret : List ℕ

abbrev pub pub_len : ℕ
pub_len = 32

abbrev pub enc_static_len : ℕ
enc_static_len = 48

abbrev pub msg1_len : ℕ
msg1_len = 96

abbrev pub msg2_len : ℕ
msg2_len = 48

module _ (aead : Aead) (dh : Dh) where
  unfoldable pub initiate : Keypair → List ℕ → List ℕ → Initiator × List ℕ
  initiate static_kp responder_pub ephemeral_secret =
      let e_pub = dh.public_key ephemeral_secret in
      let s = mix_public (prelude responder_pub) e_pub in
      let (s, k) = mix_kdf2 s (dh.shared_secret ephemeral_secret responder_pub) in
      let enc_static = aead.seal k zero_nonce s.h static_kp.public in
      let s = absorb s enc_static in
      let (s, k) = mix_kdf2 s (dh.shared_secret static_kp.secret responder_pub) in
      let enc_empty = aead.seal k zero_nonce s.h [] in
      (
        record {
          symmetric = absorb s enc_empty;
          static_kp = static_kp;
          ephemeral_secret = ephemeral_secret;
        },
        e_pub ++ (enc_static ++ enc_empty),
      )

  -- `respond` from message 2 on.
  unfoldable pub reply : List ℕ → List ℕ → List ℕ → Symmetric → TransportKeys × List ℕ × List ℕ
  reply ephemeral_secret e_pub init_static_pub s =
      let er_pub = dh.public_key ephemeral_secret in
      let s = mix_public s er_pub in
      let s = mix_kdf1 s (dh.shared_secret ephemeral_secret e_pub) in
      let s = mix_kdf1 s (dh.shared_secret ephemeral_secret init_static_pub) in
      let (s, k) = mix_kdf2 s [] in
      let enc_empty2 = aead.seal k zero_nonce s.h [] in
      let (t1, t2) = hkdf2 s.ck [] in
      (record { send = t2; recv = t1 }, er_pub ++ enc_empty2, init_static_pub)

  -- `respond` once the initiator's static key is decrypted.
  unfoldable pub respond_static :
      Keypair
      → List ℕ
      → List ℕ
      → List ℕ
      → Symmetric
      → List ℕ
      → Option (TransportKeys × List ℕ × List ℕ)
  unfolding reply
  respond_static static_kp ephemeral_secret e_pub enc_empty s init_static_pub =
      if not (length init_static_pub == pub_len)
      then none
      else let (s, k) = mix_kdf2 s (dh.shared_secret static_kp.secret init_static_pub) in
        aead.unseal k zero_nonce s.h enc_empty >>= λ empty.
        if not (is_empty empty)
        then none
        else some (reply ephemeral_secret e_pub init_static_pub (absorb s enc_empty))

  unfoldable pub respond : Keypair → List ℕ → List ℕ → Option (TransportKeys × List ℕ × List ℕ)
  unfolding respond_static
  respond static_kp ephemeral_secret msg1 =
      if not (length msg1 == msg1_len)
      then none
      else let e_pub = take pub_len msg1 in
        let enc_static = take enc_static_len (drop pub_len msg1) in
        let enc_empty = drop enc_static_len (drop pub_len msg1) in
        let s = mix_public (prelude static_kp.public) e_pub in
        let (s, k) = mix_kdf2 s (dh.shared_secret static_kp.secret e_pub) in
        aead.unseal k zero_nonce s.h enc_static
        >>= respond_static static_kp ephemeral_secret e_pub enc_empty (absorb s enc_static)

  unfoldable pub finalize : Initiator → List ℕ → Option TransportKeys
  finalize state msg2 =
      if not (length msg2 == msg2_len)
      then none
      else let er_pub = take pub_len msg2 in
        let enc_empty2 = drop pub_len msg2 in
        let s = mix_public state.symmetric er_pub in
        let s = mix_kdf1 s (dh.shared_secret state.ephemeral_secret er_pub) in
        let s = mix_kdf1 s (dh.shared_secret state.static_kp.secret er_pub) in
        let (s, k) = mix_kdf2 s [] in
        aead.unseal k zero_nonce s.h enc_empty2 >>= λ empty.
        if not (is_empty empty)
        then none
        else let (t1, t2) = hkdf2 s.ck [] in some (record { send = t1; recv = t2 })
