-- ===== src/Crypto/X25519/Decoding.antt =====
-- crates/akurai-crypto/src/x25519.rs: `decode_u` and `decode_scalar`.
use akur_ai_vpn.Base.{
  get_or, set, length-take, All-take, bit_and, ℕ, ◌+◌, ◌*◌, ◌/◌, ◌%◌, ◌^◌, ◌<◌, ◌≤◌, ◌≡◌, List, [],
  ◌∷◌, ap, ◌∙◌, arith, length, All, IsByte, of_le, drop, take, All-drop, length-drop, bit_or,
}
use akur_ai_vpn.Base.Arrays.{
  IsArray, of_le-drop, of_le-lt, of_le-top, set-IsByte, length-set, get_or-IsByte, of_le-set_top,
  take-set, get_or-set,
}
use akur_ai_vpn.Base.Masks.{bit_and-low, bit_and-high}
use akur_ai_vpn.Base.Joins.{bit_or-low, bit_or-64}
use akur_ai_vpn.Crypto.Field25519.Reduction.{value, IsTight, low51}
use akur_ai_vpn.Crypto.Field25519.{load64_le}
use akur_ai_vpn.Crypto.Word.{shl64, sub}
use akur_ai_vpn.Crypto.X25519.{limbs_of, mask_top, decode_u, decode_scalar}

load64_le_lem :
    (xs : List ℕ) → All IsByte xs → 8 ≤ length xs → load64_le (take 8 xs) ≡ of_le xs % 2 ^ 64
unfolding load64_le
load64_le_lem [] h l = absurd (omega arith)
load64_le_lem (b0 ∷ []) h l = absurd (omega arith)
load64_le_lem (b0 ∷ b1 ∷ []) h l = absurd (omega arith)
load64_le_lem (b0 ∷ b1 ∷ b2 ∷ []) h l = absurd (omega arith)
load64_le_lem (b0 ∷ b1 ∷ b2 ∷ b3 ∷ []) h l = absurd (omega arith)
load64_le_lem (b0 ∷ b1 ∷ b2 ∷ b3 ∷ b4 ∷ []) h l = absurd (omega arith)
load64_le_lem (b0 ∷ b1 ∷ b2 ∷ b3 ∷ b4 ∷ b5 ∷ []) h l = absurd (omega arith)
load64_le_lem (b0 ∷ b1 ∷ b2 ∷ b3 ∷ b4 ∷ b5 ∷ b6 ∷ []) h l = absurd (omega arith)
load64_le_lem (b0 ∷ b1 ∷ b2 ∷ b3 ∷ b4 ∷ b5 ∷ b6 ∷ b7 ∷ rest) h l =
    let s1 = b0 + shl64 b1 8 in
    let s2 = s1 + shl64 b2 16 in
    let s3 = s2 + shl64 b3 24 in
    let s4 = s3 + shl64 b4 32 in
    let s5 = s4 + shl64 b5 40 in
    let s6 = s5 + shl64 b6 48 in
    rw
      (
        bit_or-low 8 b0 (shl64 b1 8) (omega arith) (omega arith),
        bit_or-low 16 s1 (shl64 b2 16) (omega arith) (omega arith),
        bit_or-low 24 s2 (shl64 b3 24) (omega arith) (omega arith),
        bit_or-low 32 s3 (shl64 b4 32) (omega arith) (omega arith),
        bit_or-low 40 s4 (shl64 b5 40) (omega arith) (omega arith),
        bit_or-low 48 s5 (shl64 b6 48) (omega arith) (omega arith),
        bit_or-low 56 s6 (shl64 b7 56) (omega arith) (omega arith),
      )
      (omega arith)

module _ (u : List ℕ) (h : IsArray 32 u) where
  low_bytes_bound : of_le (take 31 u) < 2 ^ 248
  low_bytes_bound =
      omega
        (arith, rw (length-take 31 u, h.size) at (of_le-lt (take 31 u) (All-take _ 31 u h.bytes)))

  of_le-mask_top : of_le (mask_top u) ≡ of_le u % 2 ^ 255
  unfolding mask_top
  of_le-mask_top = omega (
    arith,
    of_le-set_top 31 (bit_and (get_or u 31 0) 0x7f) u h.size,
    of_le-top 31 u h.size,
    bit_and-low 7 (get_or u 31 0),
    low_bytes_bound,
    get_or-IsByte 31 u h.bytes,
  )

  mask_top-IsArray : IsArray 32 (mask_top u)
  unfolding mask_top
  mask_top-IsArray = record {
    size = length-set _ _ u ∙ h.size;
    bytes = set-IsByte 31 _ u (omega (arith, bit_and-low 7 (get_or u 31 0))) h.bytes;
  }

-- The number in eight bytes from place `k`.
load64_le-sub :
    (t : List ℕ) (k : ℕ)
    → IsArray 32 t
    → k ≤ 24
    → load64_le (sub t k 8) ≡ of_le t / 256 ^ k % 2 ^ 64
load64_le-sub t k h l =
    load64_le_lem (drop k t) (All-drop _ k t h.bytes) (omega (arith, length-drop k t, h.size))
    ∙ ap (λ (n : ℕ). n % 2 ^ 64) (of_le-drop k t h.bytes)

module _ (t : List ℕ) (h : IsArray 32 t) where
  limbs_of-IsTight : IsTight (limbs_of t)
  unfolding limbs_of
  limbs_of-IsTight = record {
    b0 = omega (arith, low51);
    b1 = omega (arith, low51);
    b2 = omega (arith, low51);
    b3 = omega (arith, low51);
    b4 = omega (arith, low51);
  }

  value-limbs_of : of_le t < 2 ^ 255 → value (limbs_of t) ≡ of_le t
  unfolding limbs_of
  value-limbs_of lt =
      rw
        (
          load64_le-sub t 0 h (omega arith),
          load64_le-sub t 6 h (omega arith),
          load64_le-sub t 12 h (omega arith),
          load64_le-sub t 19 h (omega arith),
          load64_le-sub t 24 h (omega arith),
        )
        (omega (arith, low51))

module _ (u : List ℕ) (h : IsArray 32 u) where
  pub decode_u-IsTight : IsTight (decode_u u)
  unfolding decode_u
  decode_u-IsTight = limbs_of-IsTight (mask_top u) (mask_top-IsArray u h)

  pub value-decode_u : value (decode_u u) ≡ of_le u % 2 ^ 255
  unfolding decode_u
  value-decode_u =
      value-limbs_of (mask_top u) (mask_top-IsArray u h) (omega (arith, of_le-mask_top u h))
      ∙ of_le-mask_top u h

-- Clearing the three lowest bits of the first byte.
of_le-set_first :
    (xs : List ℕ)
    → IsArray 32 xs
    → of_le (set xs 0 (bit_and (get_or xs 0 0) 248)) ≡ of_le xs / 8 * 8
of_le-set_first [] h = absurd (omega (arith, h.size))
of_le-set_first (x ∷ xs) h = omega (arith, bit_and-high 5 3 x, h.bytes.0)

module _ (s : List ℕ) (h : IsArray 32 s) where
  first-IsArray : IsArray 32 (set s 0 (bit_and (get_or s 0 0) 248))
  first-IsArray = record {
    size = length-set _ _ s ∙ h.size;
    bytes = set-IsByte 0 _ s (omega (arith, bit_and-high 5 3 (get_or s 0 0))) h.bytes;
  }

  scalar_bounds : (bit_and (get_or (set s 0 (bit_and (get_or s 0 0) 248)) 31 0) 127 < 128)
  scalar_bounds = omega (arith, bit_and-low 7 (get_or (set s 0 (bit_and (get_or s 0 0) 248)) 31 0))

  pub decode_scalar-IsArray : IsArray 32 (decode_scalar s)
  unfolding decode_scalar
  decode_scalar-IsArray =
      let k = set s 0 (bit_and (get_or s 0 0) 248) in
      let low = bit_and (get_or k 31 0) 127 in
      record {
        size = length-set _ _ (set k 31 low) ∙ length-set _ _ k ∙ first-IsArray.size;
        bytes =
            set-IsByte 31 _ (set k 31 low)
              (rw (get_or-set 31 low 0 k (omega (arith, first-IsArray.size)))
                (omega (arith, bit_or-64 low scalar_bounds)))
              (set-IsByte 31 low k (omega (arith, scalar_bounds)) first-IsArray.bytes);
      }

  -- The scalar without its three lowest bits, with bit 254 set and bit 255 cleared.
  pub of_le-decode_scalar : of_le (decode_scalar s) ≡ 2 ^ 254 + of_le s / 8 * 8 % 2 ^ 254
  unfolding decode_scalar
  of_le-decode_scalar =
      let k = set s 0 (bit_and (get_or s 0 0) 248) in
      let low = bit_and (get_or k 31 0) 127 in
      rw (get_or-set 31 low 0 k (omega (arith, first-IsArray.size))) (
        omega (
          arith,
          of_le-set_top 31 (bit_or low 64) (set k 31 low)
              (length-set 31 low k ∙ first-IsArray.size),
          ap of_le (take-set 31 low k),
          of_le-top 31 k first-IsArray.size,
          bit_or-64 low scalar_bounds,
          bit_and-low 7 (get_or k 31 0),
          low_bytes_bound k first-IsArray,
          get_or-IsByte 31 k first-IsArray.bytes,
          of_le-set_first s h,
        ))
