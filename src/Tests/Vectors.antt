-- ===== src/Tests/Vectors.antt =====
-- Concrete runs of the primitives: the vectors of RFC 8439, RFC 7693 and RFC 7748 that the source's own tests use.
use akur_ai_vpn.Base.{◌*◌, ◌/◌, ◌%◌, ◌^◌, arith, of_le, ℕ, ◌+◌, zero, suc, ◌≡◌, refl, List, [], ◌∷◌}
use akur_ai_vpn.Crypto.Field25519.{
  fadd, fsub, fmul, fsquare, fmul121665, dot, carry_reduce, finvert, square_times, load64_le,
  reduce_canonical, carry_propagate, subtract_p,
}
use akur_ai_vpn.Crypto.X25519.{x25519, ladder, ladder_from, decode_u, decode_scalar, encode}
use akur_ai_vpn.Crypto.Field25519.Reduction.{p}
use akur_ai_vpn.Crypto.Poly1305.Polynomial.{accumulate, multiplier, poly1305_mac-accumulate}
use akur_ai_vpn.Crypto.Word.{sub}
use akur_ai_vpn.Crypto.X25519.Curve.{scalar_multiple}
use akur_ai_vpn.Crypto.X25519.Multiplication.{x25519-scalar_multiple}
use akur_ai_vpn.Crypto.Chacha20.{chacha20_xor}
use akur_ai_vpn.Crypto.Poly1305.{poly1305_mac}
use akur_ai_vpn.Crypto.Blake2s.{hash}
use akur_ai_vpn.Crypto.Chacha20Poly1305.{seal, tag_of}

mac_key : List ℕ
mac_key =
    0x85 ∷ 0xd6 ∷ 0xbe ∷ 0x78 ∷ 0x57 ∷ 0x55 ∷ 0x6d ∷ 0x33 ∷ 0x7f ∷ 0x44 ∷ 0x52 ∷ 0xfe ∷ 0x42 ∷ 0xd5
    ∷ 0x06 ∷ 0xa8 ∷ 0x01 ∷ 0x03 ∷ 0x80 ∷ 0x8a ∷ 0xfb ∷ 0x0d ∷ 0xb2 ∷ 0xfd ∷ 0x4a ∷ 0xbf ∷ 0xf6
    ∷ 0xaf ∷ 0x41 ∷ 0x49 ∷ 0xf5 ∷ 0x1b ∷ []

mac_msg : List ℕ
mac_msg =
    0x43 ∷ 0x72 ∷ 0x79 ∷ 0x70 ∷ 0x74 ∷ 0x6f ∷ 0x67 ∷ 0x72 ∷ 0x61 ∷ 0x70 ∷ 0x68 ∷ 0x69 ∷ 0x63 ∷ 0x20
    ∷ 0x46 ∷ 0x6f ∷ 0x72 ∷ 0x75 ∷ 0x6d ∷ 0x20 ∷ 0x52 ∷ 0x65 ∷ 0x73 ∷ 0x65 ∷ 0x61 ∷ 0x72 ∷ 0x63
    ∷ 0x68 ∷ 0x20 ∷ 0x47 ∷ 0x72 ∷ 0x6f ∷ 0x75 ∷ 0x70 ∷ []

poly1305_vector :
    poly1305_mac mac_key mac_msg
    ≡ 0xa8 ∷ 0x06 ∷ 0x1d ∷ 0xc1 ∷ 0x30 ∷ 0x51 ∷ 0x36 ∷ 0xc6 ∷ 0xc2 ∷ 0x2b ∷ 0x8b ∷ 0xaf ∷ 0x0c
      ∷ 0x01 ∷ 0x27 ∷ 0xa9 ∷ []
unfolding poly1305_mac mac_key mac_msg
poly1305_vector = refl

from_to : ℕ → ℕ → List ℕ
from_to zero a = []
from_to (suc n) a = a ∷ from_to n (a + 1)

seal_text : List ℕ
seal_text =
    0x4c ∷ 0x61 ∷ 0x64 ∷ 0x69 ∷ 0x65 ∷ 0x73 ∷ 0x20 ∷ 0x61 ∷ 0x6e ∷ 0x64 ∷ 0x20 ∷ 0x47 ∷ 0x65 ∷ 0x6e
    ∷ 0x74 ∷ 0x6c ∷ 0x65 ∷ 0x6d ∷ 0x65 ∷ 0x6e ∷ 0x20 ∷ 0x6f ∷ 0x66 ∷ 0x20 ∷ 0x74 ∷ 0x68 ∷ 0x65
    ∷ 0x20 ∷ 0x63 ∷ 0x6c ∷ 0x61 ∷ 0x73 ∷ 0x73 ∷ 0x20 ∷ 0x6f ∷ 0x66 ∷ 0x20 ∷ 0x27 ∷ 0x39 ∷ 0x39
    ∷ 0x3a ∷ 0x20 ∷ 0x49 ∷ 0x66 ∷ 0x20 ∷ 0x49 ∷ 0x20 ∷ 0x63 ∷ 0x6f ∷ 0x75 ∷ 0x6c ∷ 0x64 ∷ 0x20
    ∷ 0x6f ∷ 0x66 ∷ 0x66 ∷ 0x65 ∷ 0x72 ∷ 0x20 ∷ 0x79 ∷ 0x6f ∷ 0x75 ∷ 0x20 ∷ 0x6f ∷ 0x6e ∷ 0x6c
    ∷ 0x79 ∷ 0x20 ∷ 0x6f ∷ 0x6e ∷ 0x65 ∷ 0x20 ∷ 0x74 ∷ 0x69 ∷ 0x70 ∷ 0x20 ∷ 0x66 ∷ 0x6f ∷ 0x72
    ∷ 0x20 ∷ 0x74 ∷ 0x68 ∷ 0x65 ∷ 0x20 ∷ 0x66 ∷ 0x75 ∷ 0x74 ∷ 0x75 ∷ 0x72 ∷ 0x65 ∷ 0x2c ∷ 0x20
    ∷ 0x73 ∷ 0x75 ∷ 0x6e ∷ 0x73 ∷ 0x63 ∷ 0x72 ∷ 0x65 ∷ 0x65 ∷ 0x6e ∷ 0x20 ∷ 0x77 ∷ 0x6f ∷ 0x75
    ∷ 0x6c ∷ 0x64 ∷ 0x20 ∷ 0x62 ∷ 0x65 ∷ 0x20 ∷ 0x69 ∷ 0x74 ∷ 0x2e ∷ []

sealed : List ℕ
unfolding seal chacha20_xor tag_of from_to seal_text
sealed =
    seal (from_to 32 0x80)
      (0x07 ∷ 0x00 ∷ 0x00 ∷ 0x00 ∷ 0x40 ∷ 0x41 ∷ 0x42 ∷ 0x43 ∷ 0x44 ∷ 0x45 ∷ 0x46 ∷ 0x47 ∷ [])
      (0x50 ∷ 0x51 ∷ 0x52 ∷ 0x53 ∷ 0xc0 ∷ 0xc1 ∷ 0xc2 ∷ 0xc3 ∷ 0xc4 ∷ 0xc5 ∷ 0xc6 ∷ 0xc7 ∷ [])
      seal_text

seal_vector :
    sealed
    ≡ 0xd3 ∷ 0x1a ∷ 0x8d ∷ 0x34 ∷ 0x64 ∷ 0x8e ∷ 0x60 ∷ 0xdb ∷ 0x7b ∷ 0x86 ∷ 0xaf ∷ 0xbc ∷ 0x53
      ∷ 0xef ∷ 0x7e ∷ 0xc2 ∷ 0xa4 ∷ 0xad ∷ 0xed ∷ 0x51 ∷ 0x29 ∷ 0x6e ∷ 0x08 ∷ 0xfe ∷ 0xa9 ∷ 0xe2
      ∷ 0xb5 ∷ 0xa7 ∷ 0x36 ∷ 0xee ∷ 0x62 ∷ 0xd6 ∷ 0x3d ∷ 0xbe ∷ 0xa4 ∷ 0x5e ∷ 0x8c ∷ 0xa9 ∷ 0x67
      ∷ 0x12 ∷ 0x82 ∷ 0xfa ∷ 0xfb ∷ 0x69 ∷ 0xda ∷ 0x92 ∷ 0x72 ∷ 0x8b ∷ 0x1a ∷ 0x71 ∷ 0xde ∷ 0x0a
      ∷ 0x9e ∷ 0x06 ∷ 0x0b ∷ 0x29 ∷ 0x05 ∷ 0xd6 ∷ 0xa5 ∷ 0xb6 ∷ 0x7e ∷ 0xcd ∷ 0x3b ∷ 0x36 ∷ 0x92
      ∷ 0xdd ∷ 0xbd ∷ 0x7f ∷ 0x2d ∷ 0x77 ∷ 0x8b ∷ 0x8c ∷ 0x98 ∷ 0x03 ∷ 0xae ∷ 0xe3 ∷ 0x28 ∷ 0x09
      ∷ 0x1b ∷ 0x58 ∷ 0xfa ∷ 0xb3 ∷ 0x24 ∷ 0xe4 ∷ 0xfa ∷ 0xd6 ∷ 0x75 ∷ 0x94 ∷ 0x55 ∷ 0x85 ∷ 0x80
      ∷ 0x8b ∷ 0x48 ∷ 0x31 ∷ 0xd7 ∷ 0xbc ∷ 0x3f ∷ 0xf4 ∷ 0xde ∷ 0xf0 ∷ 0x8e ∷ 0x4b ∷ 0x7a ∷ 0x9d
      ∷ 0xe5 ∷ 0x76 ∷ 0xd2 ∷ 0x65 ∷ 0x86 ∷ 0xce ∷ 0xc6 ∷ 0x4b ∷ 0x61 ∷ 0x16 ∷ 0x1a ∷ 0xe1 ∷ 0x0b
      ∷ 0x59 ∷ 0x4f ∷ 0x09 ∷ 0xe2 ∷ 0x6a ∷ 0x7e ∷ 0x90 ∷ 0x2e ∷ 0xcb ∷ 0xd0 ∷ 0x60 ∷ 0x06 ∷ 0x91
      ∷ []
unfolding sealed
seal_vector = refl

-- BLAKE2s of "abc", RFC 7693
hash_vector :
    hash (97 ∷ 98 ∷ 99 ∷ [])
    ≡ 0x50 ∷ 0x8c ∷ 0x5e ∷ 0x8c ∷ 0x32 ∷ 0x7c ∷ 0x14 ∷ 0xe2 ∷ 0xe1 ∷ 0xa7 ∷ 0x2b ∷ 0xa3 ∷ 0x4e
      ∷ 0xeb ∷ 0x45 ∷ 0x2f ∷ 0x37 ∷ 0x45 ∷ 0x8b ∷ 0x20 ∷ 0x9e ∷ 0xd6 ∷ 0x3a ∷ 0x29 ∷ 0x4d ∷ 0x99
      ∷ 0x9b ∷ 0x4c ∷ 0x86 ∷ 0x67 ∷ 0x59 ∷ 0x82 ∷ []
unfolding hash
hash_vector = refl

-- RFC 7748, section 5.2.
abbrev scalar_1 : List ℕ
scalar_1 =
    165 ∷ 70 ∷ 227 ∷ 107 ∷ 240 ∷ 82 ∷ 124 ∷ 157 ∷ 59 ∷ 22 ∷ 21 ∷ 75 ∷ 130 ∷ 70 ∷ 94 ∷ 221 ∷ 98 ∷ 20
    ∷ 76 ∷ 10 ∷ 193 ∷ 252 ∷ 90 ∷ 24 ∷ 80 ∷ 106 ∷ 34 ∷ 68 ∷ 186 ∷ 68 ∷ 154 ∷ 196 ∷ []

abbrev u_1 : List ℕ
u_1 =
    230 ∷ 219 ∷ 104 ∷ 103 ∷ 88 ∷ 48 ∷ 48 ∷ 219 ∷ 53 ∷ 148 ∷ 193 ∷ 164 ∷ 36 ∷ 177 ∷ 95 ∷ 124 ∷ 114
    ∷ 102 ∷ 36 ∷ 236 ∷ 38 ∷ 179 ∷ 53 ∷ 59 ∷ 16 ∷ 169 ∷ 3 ∷ 166 ∷ 208 ∷ 171 ∷ 28 ∷ 76 ∷ []

x25519_vector :
    x25519 scalar_1 u_1
    ≡ 195 ∷ 218 ∷ 85 ∷ 55 ∷ 157 ∷ 233 ∷ 198 ∷ 144 ∷ 142 ∷ 148 ∷ 234 ∷ 77 ∷ 242 ∷ 141 ∷ 8 ∷ 79 ∷ 50
      ∷ 236 ∷ 207 ∷ 3 ∷ 73 ∷ 28 ∷ 113 ∷ 247 ∷ 84 ∷ 180 ∷ 7 ∷ 85 ∷ 119 ∷ 162 ∷ 133 ∷ 82 ∷ []
unfolding x25519 ladder ladder_from decode_u decode_scalar encode fadd fsub fmul fsquare fmul121665
    dot carry_reduce finvert square_times load64_le reduce_canonical carry_propagate subtract_p
x25519_vector = refl

x25519-scalar_multiple_example :
    of_le (x25519 scalar_1 u_1)
    ≡ scalar_multiple (2 ^ 254 + of_le scalar_1 / 8 * 8 % 2 ^ 254) (of_le u_1 % 2 ^ 255 % p)
x25519-scalar_multiple_example =
    x25519-scalar_multiple scalar_1 u_1 (record { size = refl; bytes = omega arith })
      (record { size = refl; bytes = omega arith })

poly1305_mac-accumulate_example :
    of_le (poly1305_mac scalar_1 u_1)
    ≡ (accumulate 32 (multiplier scalar_1) 0 u_1 + of_le (sub scalar_1 16 16)) % 2 ^ 128
poly1305_mac-accumulate_example =
    poly1305_mac-accumulate scalar_1 u_1 (record { size = refl; bytes = omega arith }) (omega arith)
