-- ===== src/Crypto/Hkdf.antt =====
-- crates/akurai-crypto/src/hkdf.rs: the key schedule, at the two sizes that the handshake uses.
use akur_ai_vpn.Base.{ℕ, List, [], ◌∷◌, ◌++◌}
use akur_ai_vpn.Crypto.Blake2s.{hmac}

-- `hkdf::<1>`
unfoldable pub hkdf1 : List ℕ → List ℕ → List ℕ
unfolding hmac
hkdf1 chaining_key ikm = hmac (hmac chaining_key ikm) (0x01 ∷ [])

-- `hkdf::<2>`
unfoldable pub hkdf2 : List ℕ → List ℕ → List ℕ × List ℕ
unfolding hmac
hkdf2 chaining_key ikm =
    let temp_key = hmac chaining_key ikm in
    let out1 = hmac temp_key (0x01 ∷ []) in (out1, hmac temp_key (out1 ++ (0x02 ∷ [])))
