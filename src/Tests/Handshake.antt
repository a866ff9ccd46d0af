-- ===== src/Tests/Handshake.antt =====
-- A handshake over X25519 at concrete secrets; the responder's ephemeral secret is its static one.
use akur_ai_vpn.Base.{ℕ, ◌≡◌, refl, sym, arith, List, [], ◌∷◌, some, replicate}
use akur_ai_vpn.Base.Arrays.{IsArray}
use akur_ai_vpn.Crypto.Field25519.{
  fadd, fsub, fmul, fsquare, fmul121665, dot, carry_reduce, finvert, square_times, load64_le,
  reduce_canonical, carry_propagate, subtract_p,
}
use akur_ai_vpn.Crypto.X25519.{
  x25519, ladder, ladder_from, decode_u, decode_scalar, encode, public_key, shared_secret,
}
use akur_ai_vpn.Crypto.X25519.Agreement.{Commutes, shared_secret-Commutes}
use akur_ai_vpn.Transport.Channel.{Delivers, handshake-Delivers}
use akur_ai_vpn.Transport.Cipher.{chacha20poly1305}
use akur_ai_vpn.Transport.Exchange.{curve25519}
use akur_ai_vpn.Transport.Noise.Agreement.{handshake-agrees}
use akur_ai_vpn.Transport.Noise.{from_secret, initiate, respond, finalize}
use akur_ai_vpn.Transport.Session.{TransportKeys}

abbrev static_i : List ℕ
static_i = 1 ∷ replicate 31 7

abbrev ephemeral_i : List ℕ
ephemeral_i = 2 ∷ replicate 31 9

abbrev static_r : List ℕ
static_r = 3 ∷ replicate 31 11

static_i-IsArray : IsArray 32 static_i
static_i-IsArray = record { size = refl; bytes = omega arith }

ephemeral_i-IsArray : IsArray 32 ephemeral_i
ephemeral_i-IsArray = record { size = refl; bytes = omega arith }

static_r-IsArray : IsArray 32 static_r
static_r-IsArray = record { size = refl; bytes = omega arith }

static_secret :
    shared_secret static_r (public_key static_i) ≡ shared_secret static_i (public_key static_r)
unfolding shared_secret public_key x25519 ladder ladder_from decode_u decode_scalar encode fadd fsub
    fmul fsquare fmul121665 dot carry_reduce finvert square_times load64_le reduce_canonical
    carry_propagate subtract_p
static_secret = refl

ephemeral_secret :
    shared_secret static_r (public_key ephemeral_i)
    ≡ shared_secret ephemeral_i (public_key static_r)
unfolding shared_secret public_key x25519 ladder ladder_from decode_u decode_scalar encode fadd fsub
    fmul fsquare fmul121665 dot carry_reduce finvert square_times load64_le reduce_canonical
    carry_propagate subtract_p
ephemeral_secret = refl

static-Commutes : Commutes static_r static_i
static-Commutes =
    (shared_secret-Commutes static_r static_i static_r-IsArray static_i-IsArray).0 static_secret

ephemeral-Commutes : Commutes static_r ephemeral_i
ephemeral-Commutes =
    (shared_secret-Commutes static_r ephemeral_i static_r-IsArray ephemeral_i-IsArray).0
      ephemeral_secret

handshake-agrees_example :
    let (state, msg1) =
      initiate chacha20poly1305 curve25519
        (from_secret curve25519 static_i)
        (public_key static_r)
        ephemeral_i in
    (keys : TransportKeys) × (msg2 : List ℕ) × (respond chacha20poly1305 curve25519
        (from_secret curve25519 static_r)
        static_r
        msg1
      ≡ some (keys, msg2, public_key static_i))
    × (finalize chacha20poly1305 curve25519 state msg2
        ≡ some (record { send = keys.recv; recv = keys.send }))
handshake-agrees_example =
    handshake-agrees chacha20poly1305 static_i static_r ephemeral_i static_r static_i-IsArray
      static_r-IsArray ephemeral_i-IsArray static_r-IsArray ephemeral-Commutes static-Commutes
      (sym ephemeral-Commutes) (sym static-Commutes)

handshake-Delivers_example :
    let (state, msg1) =
      initiate chacha20poly1305 curve25519
        (from_secret curve25519 static_i)
        (public_key static_r)
        ephemeral_i in
    (responder initiator : TransportKeys) × (msg2 : List ℕ) × (respond chacha20poly1305 curve25519
        (from_secret curve25519 static_r)
        static_r
        msg1
      ≡ some (responder, msg2, public_key static_i))
    × (finalize chacha20poly1305 curve25519 state msg2 ≡ some initiator)
    × Delivers chacha20poly1305 initiator responder ((7 ∷ []) ∷ [])
    × Delivers chacha20poly1305 responder initiator ((7 ∷ []) ∷ [])
handshake-Delivers_example =
    handshake-Delivers chacha20poly1305 static_i static_r ephemeral_i static_r ((7 ∷ []) ∷ [])
      static_i-IsArray static_r-IsArray ephemeral_i-IsArray static_r-IsArray ephemeral-Commutes
      static-Commutes (sym ephemeral-Commutes) (sym static-Commutes) (omega arith)
