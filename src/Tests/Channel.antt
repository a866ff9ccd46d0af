-- ===== src/Tests/Channel.antt =====
-- The secure channel at concrete keys, over the real cipher.
use akur_ai_vpn.Base.{ℕ, ◌≡◌, refl, List, [], ◌∷◌, ◌++◌, map, none, some, arith, replicate}
use akur_ai_vpn.Crypto.Chacha20.{chacha20_xor}
use akur_ai_vpn.Crypto.Chacha20Poly1305.{seal, unseal, tag_of, difference}
use akur_ai_vpn.Crypto.Chacha20Poly1305.RoundTrip.{unseal-seal, seal-unseal}
use akur_ai_vpn.Transport.Cipher.{chacha20poly1305}
use akur_ai_vpn.Transport.Session.{TransportKeys, new, decrypt, decrypt_all}
use akur_ai_vpn.Transport.Session.Replay.{
  Matches, receive_all, new-Agrees, decrypt_all-receive_all, no_replay,
}
use akur_ai_vpn.Transport.Session.Delivery.{encrypt_all, decrypt_all-encrypt_all}

abbrev key_a : List ℕ
key_a = replicate 32 1

abbrev key_b : List ℕ
key_b = replicate 32 2

abbrev nonce_a : List ℕ
nonce_a = replicate 12 0

unseal-seal_example :
    unseal key_a nonce_a (9 ∷ []) (seal key_a nonce_a (9 ∷ []) (5 ∷ 6 ∷ [])) ≡ some (5 ∷ 6 ∷ [])
unseal-seal_example = unseal-seal key_a nonce_a (9 ∷ []) (5 ∷ 6 ∷ [])

abbrev genuine : List ℕ
genuine = seal key_a nonce_a [] (5 ∷ [])

seal-unseal_example : genuine ≡ seal key_a nonce_a [] (5 ∷ [])
seal-unseal_example =
    seal-unseal key_a nonce_a [] genuine (5 ∷ []) (unseal-seal key_a nonce_a [] (5 ∷ []))

abbrev left_keys : TransportKeys
left_keys = record { send = key_a; recv = key_b }

abbrev right_keys : TransportKeys
right_keys = record { send = key_b; recv = key_a }

decrypt_all-encrypt_all_example :
    (decrypt_all chacha20poly1305
      (new right_keys)
      (encrypt_all chacha20poly1305 (new left_keys) ((1 ∷ []) ∷ (2 ∷ []) ∷ [])).0).0
    ≡ map some ((1 ∷ []) ∷ (2 ∷ []) ∷ [])
decrypt_all-encrypt_all_example =
    decrypt_all-encrypt_all chacha20poly1305 left_keys right_keys ((1 ∷ []) ∷ (2 ∷ []) ∷ []) refl
      (omega arith)

decrypt_all-receive_all_example :
    Matches
      (new right_keys)
      (decrypt_all chacha20poly1305 (new right_keys) ((0 ∷ []) ∷ []))
      (receive_all chacha20poly1305 (new right_keys).recv_key [] ((0 ∷ []) ∷ []))
decrypt_all-receive_all_example =
    decrypt_all-receive_all chacha20poly1305 (new right_keys) [] ((0 ∷ []) ∷ [])
      (new-Agrees right_keys)

abbrev first_packet : List ℕ
first_packet = replicate 8 0 ++ seal key_a nonce_a [] (5 ∷ [])

first_packet-decrypt : (decrypt chacha20poly1305 (new right_keys) first_packet).0 ≡ some (5 ∷ [])
unfolding decrypt new seal unseal chacha20_xor tag_of difference
first_packet-decrypt = refl

no_replay_example :
    (decrypt chacha20poly1305
      (decrypt_all chacha20poly1305 (decrypt chacha20poly1305 (new right_keys) first_packet).1 []).1
      first_packet).0
    ≡ none
no_replay_example =
    no_replay chacha20poly1305 (new right_keys) [] first_packet first_packet [] (5 ∷ [])
      (new-Agrees right_keys) first_packet-decrypt refl
