-- ===== src/Common/Base64.antt =====
-- crates/akurai-common/src/b64.rs: the codec, over the bytes of ASCII text. The groups of bits that the
-- code joins by `|` do not overlap, so they are joined by `+`.
pub mod RoundTrip
use akur_ai_vpn.Base.{
  ℕ, ◌+◌, ◌-◌, ◌*◌, ◌/◌, ◌%◌, ◌^◌, Bool, true, false, not, ◌&&◌, ◌||◌, List, [], ◌∷◌, ◌++◌, Option,
  none, some, ltb, leb, ◌==◌, if◌then◌else◌, length, get_or, ◌>>=◌,
}

abbrev pub alphabet : List ℕ
alphabet =
    65 ∷ 66 ∷ 67 ∷ 68 ∷ 69 ∷ 70 ∷ 71 ∷ 72 ∷ 73 ∷ 74 ∷ 75 ∷ 76 ∷ 77 ∷ 78 ∷ 79 ∷ 80 ∷ 81 ∷ 82 ∷ 83
    ∷ 84 ∷ 85 ∷ 86 ∷ 87 ∷ 88 ∷ 89 ∷ 90 ∷ 97 ∷ 98 ∷ 99 ∷ 100 ∷ 101 ∷ 102 ∷ 103 ∷ 104 ∷ 105 ∷ 106
    ∷ 107 ∷ 108 ∷ 109 ∷ 110 ∷ 111 ∷ 112 ∷ 113 ∷ 114 ∷ 115 ∷ 116 ∷ 117 ∷ 118 ∷ 119 ∷ 120 ∷ 121 ∷ 122
    ∷ 48 ∷ 49 ∷ 50 ∷ 51 ∷ 52 ∷ 53 ∷ 54 ∷ 55 ∷ 56 ∷ 57 ∷ 43 ∷ 47 ∷ []

abbrev pub pad : ℕ
pad = 61

-- `ALPHABET[v]`
abbrev pub letter : ℕ → ℕ
letter v = get_or alphabet v 0

-- `(b0 << 16) | (b1 << 8) | b2`
abbrev pub joined : ℕ → ℕ → ℕ → ℕ
joined b0 b1 b2 = b0 * 65536 + b1 * 256 + b2

-- The letter of the six bits of `n` from bit `k` on.
abbrev pub letter_at : ℕ → ℕ → ℕ
letter_at n k = letter (n / 2 ^ k % 64)

unfoldable pub encode : List ℕ → List ℕ
encode [] = []
encode (b0 ∷ []) = let n = joined b0 0 0 in letter_at n 18 ∷ letter_at n 12 ∷ pad ∷ pad ∷ []
encode (b0 ∷ b1 ∷ []) =
    let n = joined b0 b1 0 in letter_at n 18 ∷ letter_at n 12 ∷ letter_at n 6 ∷ pad ∷ []
encode (b0 ∷ b1 ∷ b2 ∷ rest) =
    let n = joined b0 b1 b2 in
    letter_at n 18 ∷ letter_at n 12 ∷ letter_at n 6 ∷ letter_at n 0 ∷ encode rest

unfoldable pub sextet : ℕ → Option ℕ
sextet c =
    if leb 65 c && leb c 90
    then some (c - 65)
    else if leb 97 c && leb c 122
    then some (c - 97 + 26)
    else if leb 48 c && leb c 57
    then some (c - 48 + 52)
    else if c == 43
    then some 62
    else if c == 47
    then some 63
    else none

-- The locals `n` and `pad` of the loop over the characters of a group of four.
abbrev pub Acc : Type 0
Acc = ℕ × ℕ

abbrev pub take_letter : ℕ → ℕ → Option ℕ → Option Acc
take_letter n padding none = none
take_letter n padding (some v) = if ltb 0 padding then none else some (n + v, padding)

-- One pass of the loop, at the position `i`.
unfoldable pub read_char : ℕ → ℕ → Acc → Option Acc
read_char i c (n, padding) =
    let n = n * 64 % 2 ^ 32 in
    if c == pad
    then (if ltb i 2 then none else some (n, padding + 1))
    else take_letter n padding (sextet c)

unfoldable pub read_quad : ℕ → ℕ → ℕ → ℕ → Option Acc
read_quad a b c d = read_char 0 a (0, 0) >>= read_char 1 b >>= read_char 2 c >>= read_char 3 d

-- The bytes of a group: one fewer for each pad.
unfoldable pub bytes_of : Acc → List ℕ
bytes_of (n, padding) =
    n / 65536 % 256
    ∷ ((if ltb padding 2 then n / 256 % 256 ∷ [] else [])
        ++ (if ltb padding 1 then n % 256 ∷ [] else []))

unfoldable pub decode_quads : List ℕ → Option (List ℕ)
decode_quads (a ∷ b ∷ c ∷ d ∷ rest) =
    let later = decode_quads rest in
    read_quad a b c d >>= λ acc. later >>= λ bytes. some (bytes_of acc ++ bytes)
decode_quads _ = some []

unfoldable pub decode : List ℕ → Option (List ℕ)
decode input = if length input == 0 || not (length input % 4 == 0) then none else decode_quads input

-- `decode_array::<N>`
unfoldable pub decode_array : ℕ → List ℕ → Option (List ℕ)
decode_array size input = decode input >>= λ v. if not (length v == size) then none else some v
