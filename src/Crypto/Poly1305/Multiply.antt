-- ===== src/Crypto/Poly1305/Multiply.antt =====
-- crates/akurai-crypto/src/chacha20poly1305.rs: the product of `poly1305_mac` modulo 2^130 - 5.
use akur_ai_vpn.Base.{ℕ, ◌+◌, ◌-◌, ◌*◌, ◌/◌, ◌%◌, ◌^◌, ◌<◌, ◌≡◌, arith, bit_and}
use akur_ai_vpn.Base.Masks.{bit_and-low}
use akur_ai_vpn.Crypto.Poly1305.{Limbs, limb_mask, dot, multiply, carry}
use akur_ai_vpn.Crypto.Word.{mul64}

abbrev pub modulus : ℕ
modulus = 2 ^ 130 - 5

-- The number that the limbs stand for.
abbrev pub value : Limbs → ℕ
value h = h.l0 + 2 ^ 26 * h.l1 + 2 ^ 52 * h.l2 + 2 ^ 78 * h.l3 + 2 ^ 104 * h.l4

-- Each limb below `n`.
pub record IsBelow (n : ℕ) (h : Limbs) : Type 0 where
  pub b0 : h.l0 < n
  pub b1 : h.l1 < n
  pub b2 : h.l2 < n
  pub b3 : h.l3 < n
  pub b4 : h.l4 < n

-- What a round leaves: limb 1 may have taken a last carry.
pub record IsTight (h : Limbs) : Type 0 where
  pub b0 : h.l0 < 2 ^ 26
  pub b1 : h.l1 < 2 ^ 26 + 2 ^ 12
  pub b2 : h.l2 < 2 ^ 26
  pub b3 : h.l3 < 2 ^ 26
  pub b4 : h.l4 < 2 ^ 26

pub low26 : (x : ℕ) → bit_and x limb_mask ≡ x % 2 ^ 26
low26 x = bit_and-low 26 x

product_bound : (a b m n : ℕ) → a < m → b < n → a * b < m * n
product_bound a b m n h k = grind arith

module _ (a b c d e f g i j k : ℕ) (ha : a < 2 ^ 28) (hb : b < 2 ^ 29) (hc : c < 2 ^ 28)
    (hd : d < 2 ^ 29) (he : e < 2 ^ 28) (hf : f < 2 ^ 29) (hg : g < 2 ^ 28) (hi : i < 2 ^ 29)
    (hj : j < 2 ^ 28) (hk : k < 2 ^ 29) where
  dot-bound : a * b + c * d + e * f + g * i + j * k < 2 ^ 60
  dot-bound = omega (
    arith,
    product_bound a b (2 ^ 28) (2 ^ 29) ha hb,
    product_bound c d (2 ^ 28) (2 ^ 29) hc hd,
    product_bound e f (2 ^ 28) (2 ^ 29) he hf,
    product_bound g i (2 ^ 28) (2 ^ 29) hg hi,
    product_bound j k (2 ^ 28) (2 ^ 29) hj hk,
  )

  -- Five products are summed with no wrap.
  dot_lem : dot a b c d e f g i j k ≡ a * b + c * d + e * f + g * i + j * k
  dot_lem = omega (
    arith,
    product_bound a b (2 ^ 28) (2 ^ 29) ha hb,
    product_bound c d (2 ^ 28) (2 ^ 29) hc hd,
    product_bound e f (2 ^ 28) (2 ^ 29) he hf,
    product_bound g i (2 ^ 28) (2 ^ 29) hg hi,
    product_bound j k (2 ^ 28) (2 ^ 29) hj hk,
  )

module _ (d : Limbs) (b : IsBelow (2 ^ 60) d) where
  carry-IsTight : IsTight (carry d)
  unfolding carry
  carry-IsTight = record {
    b0 = omega (arith, low26);
    b1 = omega (arith, low26);
    b2 = omega (arith, low26);
    b3 = omega (arith, low26);
    b4 = omega (arith, low26);
  }

  value-carry : (q : ℕ) × (value (carry d) + modulus * q ≡ value d)
  unfolding carry
  value-carry = (
    (d.l4 + (d.l3 + (d.l2 + (d.l1 + d.l0 / 2 ^ 26) / 2 ^ 26) / 2 ^ 26) / 2 ^ 26) / 2 ^ 26,
    omega (arith, low26),
  )

module _ (r h : Limbs) (hr : IsBelow (2 ^ 26) r) (hh : IsBelow (2 ^ 28) h) where
  abbrev sums : Limbs
  sums = record {
    l0 = h.l0 * r.l0 + 5 * h.l1 * r.l4 + 5 * h.l2 * r.l3 + 5 * h.l3 * r.l2 + 5 * h.l4 * r.l1;
    l1 = h.l0 * r.l1 + h.l1 * r.l0 + 5 * h.l2 * r.l4 + 5 * h.l3 * r.l3 + 5 * h.l4 * r.l2;
    l2 = h.l0 * r.l2 + h.l1 * r.l1 + h.l2 * r.l0 + 5 * h.l3 * r.l4 + 5 * h.l4 * r.l3;
    l3 = h.l0 * r.l3 + h.l1 * r.l2 + h.l2 * r.l1 + h.l3 * r.l0 + 5 * h.l4 * r.l4;
    l4 = h.l0 * r.l4 + h.l1 * r.l3 + h.l2 * r.l2 + h.l3 * r.l1 + h.l4 * r.l0;
  }

  row0 : dot h.l0 r.l0 h.l1 (5 * r.l4) h.l2 (5 * r.l3) h.l3 (5 * r.l2) h.l4 (5 * r.l1) ≡ sums.l0
  row0 = omega (
    arith,
    dot_lem h.l0 r.l0 h.l1 (5 * r.l4) h.l2 (5 * r.l3) h.l3 (5 * r.l2) h.l4 (5 * r.l1) hh.b0
        (omega (arith, hr.b0)) hh.b1 (omega (arith, hr.b4)) hh.b2 (omega (arith, hr.b3)) hh.b3
        (omega (arith, hr.b2)) hh.b4 (omega (arith, hr.b1)),
  )

  bound0 : sums.l0 < 2 ^ 60
  bound0 = omega (
    arith,
    dot-bound h.l0 r.l0 h.l1 (5 * r.l4) h.l2 (5 * r.l3) h.l3 (5 * r.l2) h.l4 (5 * r.l1) hh.b0
        (omega (arith, hr.b0)) hh.b1 (omega (arith, hr.b4)) hh.b2 (omega (arith, hr.b3)) hh.b3
        (omega (arith, hr.b2)) hh.b4 (omega (arith, hr.b1)),
  )

  row1 : dot h.l0 r.l1 h.l1 r.l0 h.l2 (5 * r.l4) h.l3 (5 * r.l3) h.l4 (5 * r.l2) ≡ sums.l1
  row1 = omega (
    arith,
    dot_lem h.l0 r.l1 h.l1 r.l0 h.l2 (5 * r.l4) h.l3 (5 * r.l3) h.l4 (5 * r.l2) hh.b0
        (omega (arith, hr.b1)) hh.b1 (omega (arith, hr.b0)) hh.b2 (omega (arith, hr.b4)) hh.b3
        (omega (arith, hr.b3)) hh.b4 (omega (arith, hr.b2)),
  )

  bound1 : sums.l1 < 2 ^ 60
  bound1 = omega (
    arith,
    dot-bound h.l0 r.l1 h.l1 r.l0 h.l2 (5 * r.l4) h.l3 (5 * r.l3) h.l4 (5 * r.l2) hh.b0
        (omega (arith, hr.b1)) hh.b1 (omega (arith, hr.b0)) hh.b2 (omega (arith, hr.b4)) hh.b3
        (omega (arith, hr.b3)) hh.b4 (omega (arith, hr.b2)),
  )

  row2 : dot h.l0 r.l2 h.l1 r.l1 h.l2 r.l0 h.l3 (5 * r.l4) h.l4 (5 * r.l3) ≡ sums.l2
  row2 = omega (
    arith,
    dot_lem h.l0 r.l2 h.l1 r.l1 h.l2 r.l0 h.l3 (5 * r.l4) h.l4 (5 * r.l3) hh.b0
        (omega (arith, hr.b2)) hh.b1 (omega (arith, hr.b1)) hh.b2 (omega (arith, hr.b0)) hh.b3
        (omega (arith, hr.b4)) hh.b4 (omega (arith, hr.b3)),
  )

  bound2 : sums.l2 < 2 ^ 60
  bound2 = omega (
    arith,
    dot-bound h.l0 r.l2 h.l1 r.l1 h.l2 r.l0 h.l3 (5 * r.l4) h.l4 (5 * r.l3) hh.b0
        (omega (arith, hr.b2)) hh.b1 (omega (arith, hr.b1)) hh.b2 (omega (arith, hr.b0)) hh.b3
        (omega (arith, hr.b4)) hh.b4 (omega (arith, hr.b3)),
  )

  row3 : dot h.l0 r.l3 h.l1 r.l2 h.l2 r.l1 h.l3 r.l0 h.l4 (5 * r.l4) ≡ sums.l3
  row3 = omega (
    arith,
    dot_lem h.l0 r.l3 h.l1 r.l2 h.l2 r.l1 h.l3 r.l0 h.l4 (5 * r.l4) hh.b0 (omega (arith, hr.b3))
        hh.b1 (omega (arith, hr.b2)) hh.b2 (omega (arith, hr.b1)) hh.b3 (omega (arith, hr.b0)) hh.b4
        (omega (arith, hr.b4)),
  )

  bound3 : sums.l3 < 2 ^ 60
  bound3 = omega (
    arith,
    dot-bound h.l0 r.l3 h.l1 r.l2 h.l2 r.l1 h.l3 r.l0 h.l4 (5 * r.l4) hh.b0 (omega (arith, hr.b3))
        hh.b1 (omega (arith, hr.b2)) hh.b2 (omega (arith, hr.b1)) hh.b3 (omega (arith, hr.b0)) hh.b4
        (omega (arith, hr.b4)),
  )

  row4 : dot h.l0 r.l4 h.l1 r.l3 h.l2 r.l2 h.l3 r.l1 h.l4 r.l0 ≡ sums.l4
  row4 = omega (
    arith,
    dot_lem h.l0 r.l4 h.l1 r.l3 h.l2 r.l2 h.l3 r.l1 h.l4 r.l0 hh.b0 (omega (arith, hr.b4)) hh.b1
        (omega (arith, hr.b3)) hh.b2 (omega (arith, hr.b2)) hh.b3 (omega (arith, hr.b1)) hh.b4
        (omega (arith, hr.b0)),
  )

  bound4 : sums.l4 < 2 ^ 60
  bound4 = omega (
    arith,
    dot-bound h.l0 r.l4 h.l1 r.l3 h.l2 r.l2 h.l3 r.l1 h.l4 r.l0 hh.b0 (omega (arith, hr.b4)) hh.b1
        (omega (arith, hr.b3)) hh.b2 (omega (arith, hr.b2)) hh.b3 (omega (arith, hr.b1)) hh.b4
        (omega (arith, hr.b0)),
  )

  five_times : (a : ℕ) → a < 2 ^ 26 → mul64 a 5 ≡ 5 * a
  five_times a b = omega arith

  multiply-sums : multiply r h ≡ sums
  unfolding multiply
  multiply-sums = rw (
    five_times r.l1 hr.b1,
    five_times r.l2 hr.b2,
    five_times r.l3 hr.b3,
    five_times r.l4 hr.b4,
    row0,
    row1,
    row2,
    row3,
    row4,
  )

  sums-IsBelow : IsBelow (2 ^ 60) sums
  sums-IsBelow = record { b0 = bound0; b1 = bound1; b2 = bound2; b3 = bound3; b4 = bound4 }

  pub product-IsTight : IsTight (carry (multiply r h))
  product-IsTight = rw multiply-sums (carry-IsTight sums sums-IsBelow)

  -- The product of a round, less a multiple of the modulus.
  pub value-product :
      (q : ℕ) × (f : ℕ) × (value (carry (multiply r h)) + modulus * q + modulus * f
        ≡ value h * value r)
  value-product =
      let (q, e) = value-carry sums sums-IsBelow in
      (
        q,
        h.l1 * r.l4
            + h.l2 * r.l3
            + h.l3 * r.l2
            + h.l4 * r.l1
            + 2 ^ 26 * (h.l2 * r.l4 + h.l3 * r.l3 + h.l4 * r.l2)
            + 2 ^ 52 * (h.l3 * r.l4 + h.l4 * r.l3)
            + 2 ^ 78 * (h.l4 * r.l4),
        rw multiply-sums (omega (arith, e)),
      )
