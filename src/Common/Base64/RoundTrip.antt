-- ===== src/Common/Base64/RoundTrip.antt =====
-- crates/akurai-common/src/b64.rs: `encode` and `decode` against each other.
use akur_ai_vpn.Base.{
  ℕ, zero, suc, ◌+◌, ◌*◌, ◌/◌, ◌%◌, ◌^◌, ◌<◌, ◌≡◌, refl, ap, ap₂, Bool, true, false, not, ◌&&◌,
  ◌||◌, List, [], ◌∷◌, Option, none, some, ◌==◌, ==_iff, arith, All, IsByte, length,
}
use akur_ai_vpn.Common.Base64.{
  pad, letter, joined, letter_at, encode, sextet, read_char, read_quad, bytes_of, decode_quads,
  decode,
}

-- A test that holds of every number below `bound`, by running it.
abbrev holds_below : (ℕ → Bool) → ℕ → Bool
holds_below test zero = true
holds_below test (suc bound) = holds_below test bound && test bound

holds_below→test :
    (test : ℕ → Bool) (bound v : ℕ) → holds_below test bound ≡ true → v < bound → test v ≡ true
holds_below→test test zero v holds below = absurd (omega arith)
holds_below→test test (suc bound) v holds below = ground (arith, holds_below→test test bound v)

abbrev is_value : Option ℕ → ℕ → Bool
is_value none v = false
is_value (some w) v = w == v

reads_back : ℕ → Bool
reads_back v = is_value (sextet (letter v)) v && not (letter v == pad)

letters_read_back : holds_below reads_back 64 ≡ true
unfolding reads_back sextet
letters_read_back = refl

is_value→eq : (o : Option ℕ) (v : ℕ) → is_value o v ≡ true → o ≡ some v
is_value→eq none v h = cc
is_value→eq (some w) v h = ap some ((==_iff w v).0 h)

sextet-letter : (v : ℕ) → v < 64 → (sextet (letter v) ≡ some v) × ((letter v == pad) ≡ false)
unfolding reads_back
sextet-letter v h =
    let held = holds_below→test reads_back 64 v letters_read_back h in
    (is_value→eq (sextet (letter v)) v (ground arith), ground arith)

read-letter :
    (i n v : ℕ) → v < 64 → n < 2 ^ 26 → read_char i (letter v) (n, 0) ≡ some (n * 64 + v, 0)
unfolding read_char
read-letter i n v h small =
    let (value, no_pad) = sextet-letter v h in
    rw (no_pad, value) (ap (λ (m : ℕ). some (m + v, 0)) (omega arith))

read-pad :
    (i n padding : ℕ)
    → 2 < i + 1
    → n < 2 ^ 26
    → read_char i pad (n, padding) ≡ some (n * 64, padding + 1)
unfolding read_char
read-pad i n padding h small = ground arith

-- The four letters of a number below 2 ^ 24, with no pad, one, or two.
module _ (n : ℕ) (small : n < 2 ^ 24) where
  three_letters : ℕ
  three_letters = ((0 * 64 + n / 2 ^ 18 % 64) * 64 + n / 2 ^ 12 % 64) * 64 + n / 2 ^ 6 % 64

  quad-full :
      read_quad (letter_at n 18) (letter_at n 12) (letter_at n 6) (letter_at n 0) ≡ some (n, 0)
  unfolding read_quad
  quad-full =
      rw
        (
          read-letter 0 0 (n / 2 ^ 18 % 64) (omega arith) (omega arith),
          read-letter 1 (0 * 64 + n / 2 ^ 18 % 64) (n / 2 ^ 12 % 64) (omega arith) (omega arith),
          read-letter 2 ((0 * 64 + n / 2 ^ 18 % 64) * 64 + n / 2 ^ 12 % 64) (n / 2 ^ 6 % 64)
              (omega arith) (omega arith),
          read-letter 3 (((0 * 64 + n / 2 ^ 18 % 64) * 64 + n / 2 ^ 12 % 64) * 64 + n / 2 ^ 6 % 64)
              (n / 2 ^ 0 % 64) (omega arith) (omega arith),
        )
        (ap (λ (m : ℕ). some (m, 0)) (omega arith))

  quad-one_pad :
      n % 64 ≡ 0 → read_quad (letter_at n 18) (letter_at n 12) (letter_at n 6) pad ≡ some (n, 1)
  unfolding read_quad
  quad-one_pad even =
      rw
        (
          read-letter 0 0 (n / 2 ^ 18 % 64) (omega arith) (omega arith),
          read-letter 1 (0 * 64 + n / 2 ^ 18 % 64) (n / 2 ^ 12 % 64) (omega arith) (omega arith),
          read-letter 2 ((0 * 64 + n / 2 ^ 18 % 64) * 64 + n / 2 ^ 12 % 64) (n / 2 ^ 6 % 64)
              (omega arith) (omega arith),
          read-pad 3 (((0 * 64 + n / 2 ^ 18 % 64) * 64 + n / 2 ^ 12 % 64) * 64 + n / 2 ^ 6 % 64) 0
              (omega arith) (omega arith),
        )
        (ap (λ (m : ℕ). some (m, 1)) (omega arith))

  quad-two_pads : n % 4096 ≡ 0 → read_quad (letter_at n 18) (letter_at n 12) pad pad ≡ some (n, 2)
  unfolding read_quad
  quad-two_pads even =
      rw
        (
          read-letter 0 0 (n / 2 ^ 18 % 64) (omega arith) (omega arith),
          read-letter 1 (0 * 64 + n / 2 ^ 18 % 64) (n / 2 ^ 12 % 64) (omega arith) (omega arith),
          read-pad 2 ((0 * 64 + n / 2 ^ 18 % 64) * 64 + n / 2 ^ 12 % 64) 0 (omega arith)
              (omega arith),
          read-pad 3 (((0 * 64 + n / 2 ^ 18 % 64) * 64 + n / 2 ^ 12 % 64) * 64) 1 (omega arith)
              (omega arith),
        )
        (ap (λ (m : ℕ). some (m, 2)) (omega arith))

bytes-full :
    (b0 b1 b2 : ℕ)
    → IsByte b0
    → IsByte b1
    → IsByte b2
    → bytes_of (joined b0 b1 b2, 0) ≡ b0 ∷ b1 ∷ b2 ∷ []
unfolding bytes_of
bytes-full b0 b1 b2 h0 h1 h2 =
    ap₂ ◌∷◌ (omega arith) (ap₂ ◌∷◌ (omega arith) (ap (λ (x : ℕ). x ∷ []) (omega arith)))

bytes-one_pad : (b0 b1 : ℕ) → IsByte b0 → IsByte b1 → bytes_of (joined b0 b1 0, 1) ≡ b0 ∷ b1 ∷ []
unfolding bytes_of
bytes-one_pad b0 b1 h0 h1 = ap₂ ◌∷◌ (omega arith) (ap (λ (x : ℕ). x ∷ []) (omega arith))

bytes-two_pads : (b0 : ℕ) → IsByte b0 → bytes_of (joined b0 0 0, 2) ≡ b0 ∷ []
unfolding bytes_of
bytes-two_pads b0 h0 = ap (λ (x : ℕ). x ∷ []) (omega arith)

decode_quads-encode : (bytes : List ℕ) → All IsByte bytes → decode_quads (encode bytes) ≡ some bytes
unfolding decode_quads encode
decode_quads-encode [] h = refl
decode_quads-encode (b0 ∷ []) h =
    rw (quad-two_pads (joined b0 0 0) (omega arith) (omega arith), bytes-two_pads b0 h.0) refl
decode_quads-encode (b0 ∷ b1 ∷ []) h =
    rw (quad-one_pad (joined b0 b1 0) (omega arith) (omega arith), bytes-one_pad b0 b1 h.0 h.1.0)
      refl
decode_quads-encode (b0 ∷ b1 ∷ b2 ∷ rest) h =
    rw
      (
        quad-full (joined b0 b1 b2) (omega arith),
        decode_quads-encode rest h.1.1.1,
        bytes-full b0 b1 b2 h.0 h.1.0 h.1.1.0,
      )
      refl

-- The text has four characters for each three bytes begun.
length-encode : (bytes : List ℕ) → length (encode bytes) ≡ (length bytes + 2) / 3 * 4
unfolding encode
length-encode [] = omega arith
length-encode (b0 ∷ []) = omega arith
length-encode (b0 ∷ b1 ∷ []) = omega arith
length-encode (b0 ∷ b1 ∷ b2 ∷ rest) = omega (arith, length-encode rest)

-- Bytes that are encoded are decoded to the same bytes, if there are any: the empty text is refused.
pub decode-encode_bytes :
    (b : ℕ) (bytes : List ℕ)
    → All IsByte (b ∷ bytes)
    → decode (encode (b ∷ bytes)) ≡ some (b ∷ bytes)
unfolding decode
decode-encode_bytes b bytes h = rw accepted (decode_quads-encode (b ∷ bytes) h)
  where
    accepted :
        (length (encode (b ∷ bytes)) == 0 || not (length (encode (b ∷ bytes)) % 4 == 0)) ≡ false
    accepted = ground (arith, length-encode (b ∷ bytes))
