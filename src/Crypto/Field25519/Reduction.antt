-- ===== src/Crypto/Field25519/Reduction.antt =====
-- crates/akurai-crypto/src/x25519.rs: `carry_reduce` within its bounds.
use akur_ai_vpn.Base.{ℕ, ◌+◌, ◌-◌, ◌*◌, ◌/◌, ◌%◌, ◌^◌, ◌<◌, ◌≡◌, arith, bit_and}
use akur_ai_vpn.Base.Masks.{bit_and-low}
use akur_ai_vpn.Crypto.Field25519.{Fe, mask51, carry_reduce}

abbrev pub p : ℕ
p = 2 ^ 255 - 19

-- The number that five limbs stand for.
abbrev pub value : Fe → ℕ
value f = f.l0 + 2 ^ 51 * f.l1 + 2 ^ 102 * f.l2 + 2 ^ 153 * f.l3 + 2 ^ 204 * f.l4

-- What `carry_reduce` gives.
pub record IsTight (f : Fe) : Type 0 where
  pub b0 : f.l0 < 2 ^ 51
  pub b1 : f.l1 < 2 ^ 51 + 2 ^ 20
  pub b2 : f.l2 < 2 ^ 51
  pub b3 : f.l3 < 2 ^ 51
  pub b4 : f.l4 < 2 ^ 51

-- What `fmul` takes.
pub record IsLoose (f : Fe) : Type 0 where
  pub b0 : f.l0 < 2 ^ 53
  pub b1 : f.l1 < 2 ^ 53
  pub b2 : f.l2 < 2 ^ 53
  pub b3 : f.l3 < 2 ^ 53
  pub b4 : f.l4 < 2 ^ 53

pub low51 : (x : ℕ) → bit_and x mask51 ≡ x % 2 ^ 51
low51 x = bit_and-low 51 x

pub Tight-Loose : (f : Fe) → IsTight f → IsLoose f
Tight-Loose f t = record {
  b0 = omega (arith, t.b0);
  b1 = omega (arith, t.b1);
  b2 = omega (arith, t.b2);
  b3 = omega (arith, t.b3);
  b4 = omega (arith, t.b4);
}

module _ (r0 r1 r2 r3 r4 : ℕ) (h0 : r0 < 2 ^ 116) (h1 : r1 < 2 ^ 116) (h2 : r2 < 2 ^ 116)
    (h3 : r3 < 2 ^ 116) (h4 : r4 < 2 ^ 116) where
  pub carry_reduce-IsTight : IsTight (carry_reduce r0 r1 r2 r3 r4)
  unfolding carry_reduce
  carry_reduce-IsTight = record {
    b0 = omega (arith, low51);
    b1 = omega (arith, low51);
    b2 = omega (arith, low51);
    b3 = omega (arith, low51);
    b4 = omega (arith, low51);
  }

  -- The number is the one of the five sums, less a multiple of `p`.
  pub value-carry_reduce :
      (q : ℕ) × (value (carry_reduce r0 r1 r2 r3 r4) + p * q
        ≡ r0 + 2 ^ 51 * r1 + 2 ^ 102 * r2 + 2 ^ 153 * r3 + 2 ^ 204 * r4)
  unfolding carry_reduce
  value-carry_reduce = (
    (r4 + (r3 + (r2 + (r1 + r0 / 2 ^ 51) / 2 ^ 51) / 2 ^ 51) / 2 ^ 51) / 2 ^ 51,
    omega (arith, low51),
  )
