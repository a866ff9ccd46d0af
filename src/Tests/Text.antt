-- ===== src/Tests/Text.antt =====
-- The text codecs at concrete bytes.
use akur_ai_vpn.Base.{◌≡◌, refl, [], ◌∷◌, some, arith}
use akur_ai_vpn.Common.Base64.{encode, decode}
use akur_ai_vpn.Common.Base64.RoundTrip.{decode-encode_bytes}

-- "foob" is "Zm9vYg=="
foob-encode : encode (102 ∷ 111 ∷ 111 ∷ 98 ∷ []) ≡ 90 ∷ 109 ∷ 57 ∷ 118 ∷ 89 ∷ 103 ∷ 61 ∷ 61 ∷ []
unfolding encode
foob-encode = refl

decode-encode_bytes_example :
    decode (encode (102 ∷ 111 ∷ 111 ∷ 98 ∷ [])) ≡ some (102 ∷ 111 ∷ 111 ∷ 98 ∷ [])
decode-encode_bytes_example = decode-encode_bytes 102 (111 ∷ 111 ∷ 98 ∷ []) (omega arith)
