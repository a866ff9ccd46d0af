-- ===== src/Crypto/X25519/Bytes.antt =====
-- crates/akurai-crypto/src/x25519.rs: the limbs against the little-endian bytes.
use akur_ai_vpn.Base.{ℕ, ◌+◌, ◌*◌, ◌/◌, ◌%◌, ◌^◌, ◌≡◌, ◌∙◌, arith, of_le}
use akur_ai_vpn.Base.Joins.{bit_or-zero_left, bit_or-low}
use akur_ai_vpn.Crypto.Word.{shl128}
use akur_ai_vpn.Crypto.Field25519.Reduction.{value, IsTight}
use akur_ai_vpn.Crypto.Field25519.Residue.{residue}
use akur_ai_vpn.Crypto.Field25519.Canonical.{
  IsReduced, reduce_canonical-IsReduced, value-reduce_canonical,
}
use akur_ai_vpn.Crypto.Field25519.{Fe, reduce_canonical}
use akur_ai_vpn.Crypto.X25519.{write_limbs, encode}

-- Bytes 6 and 7 of a shifted limb.
abbrev byte6 : ℕ → ℕ → ℕ
byte6 l s = shl128 l s / 2 ^ 32 / 65536 % 256

abbrev byte7 : ℕ → ℕ → ℕ
byte7 l s = shl128 l s / 2 ^ 32 / 16777216 % 256

abbrev byte0 : ℕ → ℕ → ℕ
byte0 l s = shl128 l s % 256

abbrev byte1 : ℕ → ℕ → ℕ
byte1 l s = shl128 l s / 256 % 256

-- The first eight bytes of a number.
eight_bytes :
    (n : ℕ)
    → n % 256
        + 2 ^ 8 * (n / 256 % 256)
        + 2 ^ 16 * (n / 65536 % 256)
        + 2 ^ 24 * (n / 16777216 % 256)
        + 2 ^ 32 * (n / 2 ^ 32 % 256)
        + 2 ^ 40 * (n / 2 ^ 32 / 256 % 256)
        + 2 ^ 48 * (n / 2 ^ 32 / 65536 % 256)
        + 2 ^ 56 * (n / 2 ^ 32 / 16777216 % 256)
      ≡ n % 2 ^ 64
eight_bytes n = omega arith

seven_bytes :
    (n : ℕ)
    → n % 256
        + 2 ^ 8 * (n / 256 % 256)
        + 2 ^ 16 * (n / 65536 % 256)
        + 2 ^ 24 * (n / 16777216 % 256)
        + 2 ^ 32 * (n / 2 ^ 32 % 256)
        + 2 ^ 40 * (n / 2 ^ 32 / 256 % 256)
        + 2 ^ 48 * (n / 2 ^ 32 / 65536 % 256)
      ≡ n % 2 ^ 56
seven_bytes n = omega arith

-- The bytes of five limbs, laid over one another at the places of the limbs, and added up limb by limb.
gather :
    (a0 a1 a2 a3 a4 a5 a6 a7 b0 b1 b2 b3 b4 b5 b6 b7 c0 c1 c2 c3 c4 c5 c6 c7 d0 d1 d2 d3 d4 d5 d6 d7
      e0 e1 e2 e3 e4 e5 e6 : ℕ)
    → a0
        + 256
          * (a1
              + 256
                * (a2
                    + 256
                      * (a3
                          + 256
                            * (a4
                                + 256
                                  * (a5
                                      + 256
                                        * ((a6 + b0)
                                            + 256
                                              * ((a7 + b1)
                                                  + 256
                                                    * (b2
                                                        + 256
                                                          * (b3
                                                            + 256
                                                            * (b4
                                                            + 256
                                                            * (b5
                                                            + 256
                                                            * ((b6 + c0)
                                                            + 256
                                                            * ((b7 + c1)
                                                            + 256
                                                            * (c2
                                                            + 256
                                                            * (c3
                                                            + 256
                                                            * (c4
                                                            + 256
                                                            * (c5
                                                            + 256
                                                            * (c6
                                                            + 256
                                                            * ((c7 + d0)
                                                            + 256
                                                            * (d1
                                                            + 256
                                                            * (d2
                                                            + 256
                                                            * (d3
                                                            + 256
                                                            * (d4
                                                            + 256
                                                            * (d5
                                                            + 256
                                                            * ((d6 + e0)
                                                            + 256
                                                            * ((d7 + e1)
                                                            + 256
                                                            * (e2
                                                            + 256
                                                            * (e3
                                                            + 256
                                                            * (e4
                                                            + 256
                                                            * (e5
                                                            + 256
                                                            * (e6
                                                            + 256
                                                            * (0))))))))))))))))))))))))))))))))
      ≡ (a0
          + 2 ^ 8 * a1
          + 2 ^ 16 * a2
          + 2 ^ 24 * a3
          + 2 ^ 32 * a4
          + 2 ^ 40 * a5
          + 2 ^ 48 * a6
          + 2 ^ 56 * a7)
        + 2 ^ 48
          * (b0
              + 2 ^ 8 * b1
              + 2 ^ 16 * b2
              + 2 ^ 24 * b3
              + 2 ^ 32 * b4
              + 2 ^ 40 * b5
              + 2 ^ 48 * b6
              + 2 ^ 56 * b7)
        + 2 ^ 96
          * (c0
              + 2 ^ 8 * c1
              + 2 ^ 16 * c2
              + 2 ^ 24 * c3
              + 2 ^ 32 * c4
              + 2 ^ 40 * c5
              + 2 ^ 48 * c6
              + 2 ^ 56 * c7)
        + 2 ^ 152
          * (d0
              + 2 ^ 8 * d1
              + 2 ^ 16 * d2
              + 2 ^ 24 * d3
              + 2 ^ 32 * d4
              + 2 ^ 40 * d5
              + 2 ^ 48 * d6
              + 2 ^ 56 * d7)
        + 2 ^ 200
          * (e0 + 2 ^ 8 * e1 + 2 ^ 16 * e2 + 2 ^ 24 * e3 + 2 ^ 32 * e4 + 2 ^ 40 * e5 + 2 ^ 48 * e6)
gather a0 a1 a2 a3 a4 a5 a6 a7 b0 b1 b2 b3 b4 b5 b6 b7 c0 c1 c2 c3 c4 c5 c6 c7 d0 d1 d2 d3 d4 d5 d6
      d7 e0 e1 e2 e3 e4 e5 e6 =
    omega arith

of_le-write_limbs : (f : Fe) → IsReduced f → of_le (write_limbs f) ≡ value f
unfolding write_limbs
of_le-write_limbs f h = simp bit_or-zero_left (
    rw
      (
        bit_or-low 3 (byte6 f.l0 0) (byte0 f.l1 3) (omega arith) (omega arith),
        bit_or-low 0 (byte7 f.l0 0) (byte1 f.l1 3) (omega arith) (omega arith),
        bit_or-low 6 (byte6 f.l1 3) (byte0 f.l2 6) (omega arith) (omega arith),
        bit_or-low 0 (byte7 f.l1 3) (byte1 f.l2 6) (omega arith) (omega arith),
        bit_or-low 1 (byte7 f.l2 6) (byte0 f.l3 1) (omega arith) (omega arith),
        bit_or-low 4 (byte6 f.l3 1) (byte0 f.l4 4) (omega arith) (omega arith),
        bit_or-low 0 (byte7 f.l3 1) (byte1 f.l4 4) (omega arith) (omega arith),
      )
      (gather _ _ _ _ _ _ _ _ _ _ _ _ _ _ _ _ _ _ _ _ _ _ _ _ _ _ _ _ _ _ _ _ _ _ _ _ _ _ _
        ∙ rw
            (
              eight_bytes (shl128 f.l0 0),
              eight_bytes (shl128 f.l1 3),
              eight_bytes (shl128 f.l2 6),
              eight_bytes (shl128 f.l3 1),
              seven_bytes (shl128 f.l4 4),
            )
            (omega arith)))

-- What `encode` writes is the residue, least byte first.
pub of_le-encode : (v : Fe) → IsTight v → of_le (encode v) ≡ residue v
unfolding encode
of_le-encode v h =
    of_le-write_limbs (reduce_canonical v) (reduce_canonical-IsReduced v h)
    ∙ value-reduce_canonical v h
