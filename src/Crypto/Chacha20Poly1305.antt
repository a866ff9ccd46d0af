-- ===== src/Crypto/Chacha20Poly1305.antt =====
-- crates/akurai-crypto/src/chacha20poly1305.rs: `seal` and `open`.
pub mod RoundTrip
use akur_ai_vpn.Base.{
  ℕ, ◌+◌, ◌-◌, ◌%◌, ◌^◌, List, [], ◌∷◌, ◌++◌, Option, none, some, ltb, ◌==◌, if◌then◌else◌, length,
  take, drop, replicate, u64_le, bit_or, bit_xor,
}
use akur_ai_vpn.Crypto.Chacha20.{new, block, chacha20_xor}
use akur_ai_vpn.Crypto.Poly1305.{poly1305_mac}

unfoldable pub pad16_len : ℕ → ℕ
pad16_len n = let r = n % 16 in if r == 0 then 0 else 16 - r

unfoldable pub mac_data : List ℕ → List ℕ → List ℕ
unfolding pad16_len
mac_data aad ciphertext =
    aad
    ++ (replicate (pad16_len (length aad)) 0
        ++ (ciphertext
            ++ (replicate (pad16_len (length ciphertext)) 0
                ++ (u64_le (length aad % 2 ^ 64) ++ u64_le (length ciphertext % 2 ^ 64)))))

-- The one-time key: the first half of the key stream's block 0.
unfoldable pub one_time_key : List ℕ → List ℕ → List ℕ
unfolding new block
one_time_key key nonce = take 32 (block (new key nonce 0))

unfoldable pub tag_of : List ℕ → List ℕ → List ℕ → List ℕ → List ℕ
unfolding one_time_key mac_data poly1305_mac
tag_of key nonce aad ct = poly1305_mac (one_time_key key nonce) (mac_data aad ct)

unfoldable pub seal : List ℕ → List ℕ → List ℕ → List ℕ → List ℕ
seal key nonce aad plaintext =
    let ct = chacha20_xor key nonce 1 plaintext in ct ++ tag_of key nonce aad ct

-- The fold of the constant-time compare.
unfoldable pub difference : ℕ → List ℕ → List ℕ → ℕ
difference acc (a ∷ as') (b ∷ bs) = difference (bit_or acc (bit_xor a b)) as' bs
difference acc _ _ = acc

-- `open`
unfoldable pub unseal : List ℕ → List ℕ → List ℕ → List ℕ → Option (List ℕ)
unseal key nonce aad sealed =
    if ltb (length sealed) 16
    then none
    else let ct = take (length sealed - 16) sealed in
      let received = drop (length sealed - 16) sealed in
      if difference 0 (tag_of key nonce aad ct) received == 0
      then some (chacha20_xor key nonce 1 ct)
      else none
