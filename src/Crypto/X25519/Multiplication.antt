-- ===== src/Crypto/X25519/Multiplication.antt =====
-- crates/akurai-crypto/src/x25519.rs: `x25519` against the function of RFC 7748 on numbers.
use akur_ai_vpn.Base.{
  ℕ, zero, suc, ◌+◌, ◌-◌, ◌*◌, ◌/◌, ◌%◌, ◌^◌, ◌≤◌, ◌≡◌, ap, ap₂, refl, ◌∙◌, arith, List, All,
  IsByte, of_le,
}
use akur_ai_vpn.Base.Arrays.{IsArray}
use akur_ai_vpn.Crypto.Field25519.Arithmetic.{fmul-IsTight}
use akur_ai_vpn.Crypto.Field25519.Inverse.{finvert-IsTight, residue-finvert}
use akur_ai_vpn.Crypto.Field25519.Reduction.{value, p, IsTight, Tight-Loose}
use akur_ai_vpn.Crypto.Field25519.Residue.{mul_p, pow_p, residue, residue-fmul}
use akur_ai_vpn.Crypto.Field25519.{Fe, fmul, finvert, fe_one, fe_zero}
use akur_ai_vpn.Crypto.X25519.Bytes.{of_le-encode}
use akur_ai_vpn.Crypto.X25519.Curve.{
  Pair, Point, step, steps, infinity, affine, multiple_from, scalar_multiple,
}
use akur_ai_vpn.Crypto.X25519.Decoding.{
  decode_u-IsTight, value-decode_u, decode_scalar-IsArray, of_le-decode_scalar,
}
use akur_ai_vpn.Crypto.X25519.Rounds.{point, pair_of, IsWithin, round-step}
use akur_ai_vpn.Crypto.X25519.ScalarBits.{scalar_bit_lem, scalar_bit-le}
use akur_ai_vpn.Crypto.X25519.Swap.{cswap-zero, cswap-one}
use akur_ai_vpn.Crypto.X25519.{
  Ladder, round, rounds, quotient, ladder_from, ladder, start, scalar_bit, x25519, decode_u,
  decode_scalar,
}

rounds-steps :
    (k : List ℕ) (x1 : Fe) (t : ℕ) (s : Ladder)
    → All IsByte k
    → IsTight x1
    → IsWithin s
    → IsWithin (rounds k x1 t s)
      × (pair_of (rounds k x1 t s) ≡ steps (of_le k) (residue x1) t (pair_of s))
unfolding rounds steps
rounds-steps k x1 zero s hk h1 h = (h, refl)
rounds-steps k x1 (suc t) s hk h1 h =
    let (within, same) = round-step x1 s (scalar_bit k t) h1 h (scalar_bit-le k t) in
    let (last, done) = rounds-steps k x1 t (round x1 (scalar_bit k t) s) hk h1 within in
    (
      last,
      done
          ∙ ap (steps (of_le k) (residue x1) t)
              (same ∙ ap (λ (b : ℕ). step (residue x1) b (pair_of s)) (scalar_bit_lem k t hk)),
    )

abbrev divided : Point → ℕ
divided a = mul_p a.x (pow_p a.z (p - 2))

abbrev divide : Fe × Fe → Fe × Fe → Fe
divide (x2, x3) (z2, z3) = fmul x2 (finvert z2)

-- What a result of the ladder is: within bounds, and the quotient of the first point.
abbrev IsQuotient : Fe → Point → Type 0
IsQuotient f a = IsTight f × (residue f ≡ divided a)

division : (x z : Fe) → IsTight x → IsTight z → IsQuotient (fmul x (finvert z)) (point x z)
division x z hx hz =
    let hi = Tight-Loose _ (finvert-IsTight z hz) in
    let hx' = Tight-Loose _ hx in
    (
      fmul-IsTight x (finvert z) hx' hi,
      residue-fmul x (finvert z) hx' hi ∙ ap (mul_p (residue x)) (residue-finvert z hz),
    )

module _ (x2 z2 x3 z3 : Fe) (hx2 : IsTight x2) (hz2 : IsTight z2) (hx3 : IsTight x3)
    (hz3 : IsTight z3) where
  abbrev state : ℕ → Ladder
  state swap = record { x2 = x2; z2 = z2; x3 = x3; z3 = z3; swap = swap }

  quotient-zero : quotient (state 0) ≡ fmul x2 (finvert z2)
  unfolding quotient
  quotient-zero = ap₂ divide (cswap-zero x2 x3) (cswap-zero z2 z3)

  quotient-one : quotient (state 1) ≡ fmul x3 (finvert z3)
  unfolding quotient
  quotient-one = ap₂ divide (cswap-one x2 x3 hx2 hx3) (cswap-one z2 z3 hz2 hz3)

  quotient_lem :
      (swap : ℕ) → swap ≤ 1 → IsQuotient (quotient (state swap)) (pair_of (state swap)).low
  quotient_lem zero h = rw quotient-zero (division x2 z2 hx2 hz2)
  quotient_lem (suc zero) h = rw quotient-one (division x3 z3 hx3 hz3)
  quotient_lem (suc (suc n)) h = absurd (omega arith)

start-IsWithin : (u : Fe) → IsTight u → IsWithin (start u)
start-IsWithin u h = record {
  tx2 = record {
    b0 = omega arith;
    b1 = omega arith;
    b2 = omega arith;
    b3 = omega arith;
    b4 = omega arith;
  };
  tz2 = record {
    b0 = omega arith;
    b1 = omega arith;
    b2 = omega arith;
    b3 = omega arith;
    b4 = omega arith;
  };
  tx3 = h;
  tz3 = record {
    b0 = omega arith;
    b1 = omega arith;
    b2 = omega arith;
    b3 = omega arith;
    b4 = omega arith;
  };
  bit = omega arith;
}

start_pair : (u : Fe) → pair_of (start u) ≡ record { low = infinity; high = affine (residue u) }
start_pair u = rw (one, nought)
  where
    one : residue fe_one ≡ 1
    one = unfold residue in refl

    nought : residue fe_zero ≡ 0
    nought = unfold residue in refl

-- The ladder over any number of bits.
ladder_from-multiple :
    (bits : ℕ) (k : List ℕ) (u : Fe)
    → All IsByte k
    → IsTight u
    → IsTight (ladder_from bits k u)
      × (residue (ladder_from bits k u) ≡ multiple_from bits (of_le k) (residue u))
unfolding ladder_from multiple_from
ladder_from-multiple bits k u hk hu =
    let s = rounds k u bits (start u) in
    let (h, same) = rounds-steps k u bits (start u) hk hu (start-IsWithin u hu) in
    let (tight, quot) = quotient_lem s.x2 s.z2 s.x3 s.z3 h.tx2 h.tz2 h.tx3 h.tz3 s.swap h.bit in
    (
      tight,
      quot
          ∙ ap (λ (r : Pair). divided r.low)
              (same ∙ ap (steps (of_le k) (residue u) bits) (start_pair u)),
    )

-- `x25519` gives, least byte first, the number that RFC 7748 defines: the multiple of the point of `u`,
-- its bit 255 cleared, by the scalar with its three lowest bits cleared, bit 254 set and bit 255 cleared.
pub x25519-scalar_multiple :
    (scalar u : List ℕ)
    → IsArray 32 scalar
    → IsArray 32 u
    → of_le (x25519 scalar u)
      ≡ scalar_multiple (2 ^ 254 + of_le scalar / 8 * 8 % 2 ^ 254) (of_le u % 2 ^ 255 % p)
unfolding x25519 ladder scalar_multiple
x25519-scalar_multiple scalar u hs hu =
    let k = decode_scalar scalar in
    let v = decode_u u in
    let (tight, same) =
      ladder_from-multiple 255 k v (decode_scalar-IsArray scalar hs).bytes
        (decode_u-IsTight u hu) in
    of_le-encode (ladder_from 255 k v) tight
    ∙ same
    ∙ ap₂ (multiple_from 255) (of_le-decode_scalar scalar hs) (decoded (value-decode_u u hu))
  where
    decoded : value (decode_u u) ≡ of_le u % 2 ^ 255 → residue (decode_u u) ≡ of_le u % 2 ^ 255 % p
    decoded e = unfold residue in ap (λ (n : ℕ). n % p) e
