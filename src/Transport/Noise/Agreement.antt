-- ===== src/Transport/Noise/Agreement.antt =====
-- crates/akurai-transport/src/noise.rs: the two ends of a handshake against each other.
use akur_ai_vpn.Base.{
  ℕ, ◌≡◌, refl, inl, List, [], ◌++◌, some, length, take, drop, arith, length-append, cut-append,
}
use akur_ai_vpn.Base.Arrays.{IsArray}
use akur_ai_vpn.Crypto.X25519.Agreement.{Commutes, shared_secret-Commutes}
use akur_ai_vpn.Crypto.X25519.{public_key}
use akur_ai_vpn.Transport.Exchange.{curve25519}
use akur_ai_vpn.Transport.Aead.{Aead}
use akur_ai_vpn.Transport.Session.{TransportKeys}
use akur_ai_vpn.Transport.Noise.{
  Dh, from_secret, Symmetric, mix_public, prelude, mix_kdf2, mix_kdf1, absorb, zero_nonce, initiate,
  respond, respond_static, reply, finalize,
}

abbrev sealed_empty : Aead → List ℕ → List ℕ → List ℕ
sealed_empty aead k h = aead.seal k zero_nonce h []

length-msg1 :
    (a b c : List ℕ) → length a ≡ 32 → length b ≡ 48 → length c ≡ 16 → length (a ++ (b ++ c)) ≡ 96
length-msg1 a b c p q r = omega (arith, length-append a (b ++ c), length-append b c)

length-msg2 : (a b : List ℕ) → length a ≡ 32 → length b ≡ 16 → length (a ++ b) ≡ 48
length-msg2 a b p q = omega (arith, length-append a b)

cut_msg2 : (a b : List ℕ) → length a ≡ 32 → (take 32 (a ++ b) ≡ a) × (drop 32 (a ++ b) ≡ b)
cut_msg2 a b p = cut-append 32 a b (inl p)

module _ (aead : Aead) (dh : Dh) where
  -- Two sides compute one secret.
  abbrev Agree : List ℕ → List ℕ → Type 0
  Agree a b = dh.shared_secret a (dh.public_key b) ≡ dh.shared_secret b (dh.public_key a)

  -- The parts of a message of the right lengths are cut where they were joined.
  cut_msg1 :
      (a b c : List ℕ)
      → length a ≡ 32
      → length b ≡ 48
      → (take 32 (a ++ (b ++ c)) ≡ a)
        × (take 48 (drop 32 (a ++ (b ++ c))) ≡ b)
        × (drop 48 (drop 32 (a ++ (b ++ c))) ≡ c)
  cut_msg1 a b c p q =
      let (t, d) = cut-append 32 a (b ++ c) (inl p) in
      let (t', d') = cut-append 48 b c (inl q) in (t, rw d t', rw d d')

  -- Whatever the responder's ephemeral secret, `finalize` on the message 2 that `reply` writes takes
  -- the mirrored keys, if the initiator's state is what the responder's has become.
  finalize-reply :
      (i ei er : List ℕ) (s : Symmetric)
      → Agree ei er
      → Agree i er
      → let (keys, msg2, init_pub) = reply aead dh er (dh.public_key ei) (dh.public_key i) s in
        finalize aead dh
          (record { symmetric = s; static_kp = from_secret dh i; ephemeral_secret = ei })
          msg2
        ≡ some (record { send = keys.recv; recv = keys.send })
  unfolding finalize reply
  finalize-reply i ei er s same_ee same_se =
      let (a, b) = cut_msg2 (dh.public_key er) (sealed_empty aead k h) (dh.length-public_key er) in
      rw
        (
          length-msg2 (dh.public_key er) (sealed_empty aead k h) (dh.length-public_key er)
              (aead.length-seal k zero_nonce h []),
          a,
          b,
          same_ee,
          same_se,
          aead.unseal-seal k zero_nonce h [],
        )
        refl
    where
      last : Symmetric × List ℕ
      last =
          mix_kdf2
            (mix_kdf1
              (mix_kdf1 (mix_public s (dh.public_key er)) (dh.shared_secret er (dh.public_key ei)))
              (dh.shared_secret er (dh.public_key i)))
            []

      k : List ℕ
      k = last.1

      h : List ℕ
      h = last.0.h

  -- What the initiator's message 1 gives the responder.
  respond-initiate :
      (i r ei er : List ℕ)
      → Agree r ei
      → Agree r i
      → let (state, msg1) = initiate aead dh (from_secret dh i) (dh.public_key r) ei in
        respond aead dh (from_secret dh r) er msg1
        ≡ some (reply aead dh er (dh.public_key ei) (dh.public_key i) state.symmetric)
  unfolding initiate respond respond_static
  respond-initiate i r ei er same_es same_ss =
      let (a, b, c) =
        cut_msg1 (dh.public_key ei) enc_static enc_empty (dh.length-public_key ei) static_len in
      rw
        (
          length-msg1 (dh.public_key ei) enc_static enc_empty (dh.length-public_key ei) static_len
              (aead.length-seal second.1 zero_nonce second.0.h []),
          a,
          b,
          c,
          same_es,
          aead.unseal-seal first.1 zero_nonce first.0.h (dh.public_key i),
          dh.length-public_key i,
          same_ss,
          aead.unseal-seal second.1 zero_nonce second.0.h [],
        )
        refl
    where
      first : Symmetric × List ℕ
      first =
          mix_kdf2 (mix_public (prelude (dh.public_key r)) (dh.public_key ei))
            (dh.shared_secret ei (dh.public_key r))

      enc_static : List ℕ
      enc_static = aead.seal first.1 zero_nonce first.0.h (dh.public_key i)

      second : Symmetric × List ℕ
      second = mix_kdf2 (absorb first.0 enc_static) (dh.shared_secret i (dh.public_key r))

      enc_empty : List ℕ
      enc_empty = aead.seal second.1 zero_nonce second.0.h []

      static_len : length enc_static ≡ 48
      static_len = omega (
        arith,
        aead.length-seal first.1 zero_nonce first.0.h (dh.public_key i),
        dh.length-public_key i,
      )

-- Let the initiator know the responder's key, let the four secrets have 32 bytes each, and let the
-- multiples of the base point by their secrets commute on the curve of RFC 7748, for the four pairs
-- that the handshake exchanges. Then the handshake, over X25519 and any cipher that opens what it
-- seals, succeeds: the responder learns the initiator's public key, and the two ends hold mirrored
-- keys, so that what one sends under, the other receives under.
pub handshake-agrees :
    (aead : Aead) (i r ei er : List ℕ)
    → IsArray 32 i
    → IsArray 32 r
    → IsArray 32 ei
    → IsArray 32 er
    → Commutes r ei
    → Commutes r i
    → Commutes ei er
    → Commutes i er
    → let (state, msg1) = initiate aead curve25519 (from_secret curve25519 i) (public_key r) ei in
      (keys : TransportKeys) × (msg2 : List ℕ) × (respond aead curve25519
          (from_secret curve25519 r)
          er
          msg1
        ≡ some (keys, msg2, public_key i))
      × (finalize aead curve25519 state msg2 ≡ some (record { send = keys.recv; recv = keys.send }))
unfolding initiate reply
handshake-agrees aead i r ei er hi hr hei her es ss ee se =
    let (state, msg1) = initiate aead curve25519 (from_secret curve25519 i) (public_key r) ei in
    let (keys, msg2, init_pub) =
      reply aead curve25519 er (public_key ei) (public_key i) state.symmetric in
    (
      keys,
      msg2,
      respond-initiate aead curve25519 i r ei er ((shared_secret-Commutes r ei hr hei).1 es)
          ((shared_secret-Commutes r i hr hi).1 ss),
      finalize-reply aead curve25519 i ei er state.symmetric
          ((shared_secret-Commutes ei er hei her).1 ee) ((shared_secret-Commutes i er hi her).1 se),
    )
