-- ===== src/Crypto/Field25519/Arithmetic.antt =====
-- crates/akurai-crypto/src/x25519.rs: the field operations on values. Within the bounds nothing wraps.
use akur_ai_vpn.Base.{ℕ, ◌+◌, ◌*◌, ◌^◌, ◌<◌, ◌≡◌, arith}
use akur_ai_vpn.Crypto.Field25519.Reduction.{
  p, value, IsTight, IsLoose, carry_reduce-IsTight, value-carry_reduce,
}
use akur_ai_vpn.Crypto.Field25519.{Fe, carry_reduce, dot, mul128, fmul}

product_bound : (a b m n : ℕ) → a < m → b < n → a * b < m * n
product_bound a b m n h k = grind arith

-- Five products of factors within bounds are summed with no wrap.
module _ (a b c d e f g h i j : ℕ) (ha : a < 2 ^ 58) (hb : b < 2 ^ 53) (hc : c < 2 ^ 58)
    (hd : d < 2 ^ 53) (he : e < 2 ^ 58) (hf : f < 2 ^ 53) (hg : g < 2 ^ 58) (hh : h < 2 ^ 53)
    (hi : i < 2 ^ 58) (hj : j < 2 ^ 53) where
  pub dot_lem : dot a b c d e f g h i j ≡ a * b + c * d + e * f + g * h + i * j
  unfolding dot
  dot_lem = omega (
    arith,
    product_bound a b (2 ^ 58) (2 ^ 53) ha hb,
    product_bound c d (2 ^ 58) (2 ^ 53) hc hd,
    product_bound e f (2 ^ 58) (2 ^ 53) he hf,
    product_bound g h (2 ^ 58) (2 ^ 53) hg hh,
    product_bound i j (2 ^ 58) (2 ^ 53) hi hj,
  )

  pub dot-bound : a * b + c * d + e * f + g * h + i * j < 2 ^ 116
  dot-bound = omega (
    arith,
    product_bound a b (2 ^ 58) (2 ^ 53) ha hb,
    product_bound c d (2 ^ 58) (2 ^ 53) hc hd,
    product_bound e f (2 ^ 58) (2 ^ 53) he hf,
    product_bound g h (2 ^ 58) (2 ^ 53) hg hh,
    product_bound i j (2 ^ 58) (2 ^ 53) hi hj,
  )

-- `19 * a` with no wrap.
nineteen_lem : (a : ℕ) → a < 2 ^ 53 → mul128 19 a ≡ 19 * a
nineteen_lem a h = omega arith

module _ (a b : Fe) (ha : IsLoose a) (hb : IsLoose b) where
  abbrev sum0 : ℕ
  sum0 = a.l0 * b.l0 + 19 * a.l1 * b.l4 + 19 * a.l2 * b.l3 + 19 * a.l3 * b.l2 + 19 * a.l4 * b.l1

  abbrev sum1 : ℕ
  sum1 = a.l0 * b.l1 + a.l1 * b.l0 + 19 * a.l2 * b.l4 + 19 * a.l3 * b.l3 + 19 * a.l4 * b.l2

  abbrev sum2 : ℕ
  sum2 = a.l0 * b.l2 + a.l1 * b.l1 + a.l2 * b.l0 + 19 * a.l3 * b.l4 + 19 * a.l4 * b.l3

  abbrev sum3 : ℕ
  sum3 = a.l0 * b.l3 + a.l1 * b.l2 + a.l2 * b.l1 + a.l3 * b.l0 + 19 * a.l4 * b.l4

  abbrev sum4 : ℕ
  sum4 = a.l0 * b.l4 + a.l1 * b.l3 + a.l2 * b.l2 + a.l3 * b.l1 + a.l4 * b.l0

  row0 : dot a.l0 b.l0 (19 * a.l1) b.l4 (19 * a.l2) b.l3 (19 * a.l3) b.l2 (19 * a.l4) b.l1 ≡ sum0
  row0 =
      dot_lem _ _ _ _ _ _ _ _ _ _ (omega arith) hb.b0 (omega arith) hb.b4 (omega arith) hb.b3
        (omega arith) hb.b2 (omega arith) hb.b1

  bound0 : sum0 < 2 ^ 116
  bound0 = omega (
    arith,
    dot-bound a.l0 b.l0 (19 * a.l1) b.l4 (19 * a.l2) b.l3 (19 * a.l3) b.l2 (19 * a.l4) b.l1
        (omega arith) hb.b0 (omega arith) hb.b4 (omega arith) hb.b3 (omega arith) hb.b2
        (omega arith) hb.b1,
  )

  row1 : dot a.l0 b.l1 a.l1 b.l0 (19 * a.l2) b.l4 (19 * a.l3) b.l3 (19 * a.l4) b.l2 ≡ sum1
  row1 =
      dot_lem _ _ _ _ _ _ _ _ _ _ (omega arith) hb.b1 (omega arith) hb.b0 (omega arith) hb.b4
        (omega arith) hb.b3 (omega arith) hb.b2

  bound1 : sum1 < 2 ^ 116
  bound1 = omega (
    arith,
    dot-bound a.l0 b.l1 a.l1 b.l0 (19 * a.l2) b.l4 (19 * a.l3) b.l3 (19 * a.l4) b.l2 (omega arith)
        hb.b1 (omega arith) hb.b0 (omega arith) hb.b4 (omega arith) hb.b3 (omega arith) hb.b2,
  )

  row2 : dot a.l0 b.l2 a.l1 b.l1 a.l2 b.l0 (19 * a.l3) b.l4 (19 * a.l4) b.l3 ≡ sum2
  row2 =
      dot_lem _ _ _ _ _ _ _ _ _ _ (omega arith) hb.b2 (omega arith) hb.b1 (omega arith) hb.b0
        (omega arith) hb.b4 (omega arith) hb.b3

  bound2 : sum2 < 2 ^ 116
  bound2 = omega (
    arith,
    dot-bound a.l0 b.l2 a.l1 b.l1 a.l2 b.l0 (19 * a.l3) b.l4 (19 * a.l4) b.l3 (omega arith) hb.b2
        (omega arith) hb.b1 (omega arith) hb.b0 (omega arith) hb.b4 (omega arith) hb.b3,
  )

  row3 : dot a.l0 b.l3 a.l1 b.l2 a.l2 b.l1 a.l3 b.l0 (19 * a.l4) b.l4 ≡ sum3
  row3 =
      dot_lem _ _ _ _ _ _ _ _ _ _ (omega arith) hb.b3 (omega arith) hb.b2 (omega arith) hb.b1
        (omega arith) hb.b0 (omega arith) hb.b4

  bound3 : sum3 < 2 ^ 116
  bound3 = omega (
    arith,
    dot-bound a.l0 b.l3 a.l1 b.l2 a.l2 b.l1 a.l3 b.l0 (19 * a.l4) b.l4 (omega arith) hb.b3
        (omega arith) hb.b2 (omega arith) hb.b1 (omega arith) hb.b0 (omega arith) hb.b4,
  )

  row4 : dot a.l0 b.l4 a.l1 b.l3 a.l2 b.l2 a.l3 b.l1 a.l4 b.l0 ≡ sum4
  row4 =
      dot_lem _ _ _ _ _ _ _ _ _ _ (omega arith) hb.b4 (omega arith) hb.b3 (omega arith) hb.b2
        (omega arith) hb.b1 (omega arith) hb.b0

  bound4 : sum4 < 2 ^ 116
  bound4 = omega (
    arith,
    dot-bound a.l0 b.l4 a.l1 b.l3 a.l2 b.l2 a.l3 b.l1 a.l4 b.l0 (omega arith) hb.b4 (omega arith)
        hb.b3 (omega arith) hb.b2 (omega arith) hb.b1 (omega arith) hb.b0,
  )

  fmul_sums : fmul a b ≡ carry_reduce sum0 sum1 sum2 sum3 sum4
  unfolding fmul
  fmul_sums = rw (
    nineteen_lem a.l1 ha.b1,
    nineteen_lem a.l2 ha.b2,
    nineteen_lem a.l3 ha.b3,
    nineteen_lem a.l4 ha.b4,
    row0,
    row1,
    row2,
    row3,
    row4,
  )

  pub fmul-IsTight : IsTight (fmul a b)
  fmul-IsTight =
      rw fmul_sums
        (carry_reduce-IsTight sum0 sum1 sum2 sum3 sum4 bound0 bound1 bound2 bound3 bound4)

  pub value-fmul : (q : ℕ) × (h : ℕ) × (value (fmul a b) + p * q + p * h ≡ value a * value b)
  value-fmul =
      let (q, e) = value-carry_reduce sum0 sum1 sum2 sum3 sum4 bound0 bound1 bound2 bound3 bound4 in
      (
        q,
        a.l1 * b.l4
            + a.l2 * b.l3
            + a.l3 * b.l2
            + a.l4 * b.l1
            + 2 ^ 51 * (a.l2 * b.l4 + a.l3 * b.l3 + a.l4 * b.l2)
            + 2 ^ 102 * (a.l3 * b.l4 + a.l4 * b.l3)
            + 2 ^ 153 * (a.l4 * b.l4),
        rw fmul_sums (omega (arith, e)),
      )
