-- ===== src/Crypto/Field25519/Canonical.antt =====
-- crates/akurai-crypto/src/x25519.rs: `reduce_canonical`.
use akur_ai_vpn.Base.{ap, ◌∙◌, ℕ, ◌+◌, ◌%◌, ◌^◌, ◌<◌, ◌≡◌, arith}
use akur_ai_vpn.Crypto.Field25519.Reduction.{p, value, IsTight, low51}
use akur_ai_vpn.Crypto.Field25519.Residue.{residue}
use akur_ai_vpn.Crypto.Field25519.{Fe, carry_propagate, subtract_p, reduce_canonical}

-- Limbs of 51 bits.
pub record IsReduced (f : Fe) : Type 0 where
  pub b0 : f.l0 < 2 ^ 51
  pub b1 : f.l1 < 2 ^ 51
  pub b2 : f.l2 < 2 ^ 51
  pub b3 : f.l3 < 2 ^ 51
  pub b4 : f.l4 < 2 ^ 51

module _ (v : Fe) (h : IsTight v) where
  value-carry_propagate : value (carry_propagate v) ≡ value v
  unfolding carry_propagate
  value-carry_propagate = omega (arith, low51)

module _ (t : Fe) (h0 : t.l0 < 2 ^ 51) (h1 : t.l1 < 2 ^ 51) (h2 : t.l2 < 2 ^ 51 + 1)
    (h3 : t.l3 < 2 ^ 51) (h4 : t.l4 < 2 ^ 51) where
  subtract_p-IsReduced : IsReduced (subtract_p t)
  unfolding subtract_p
  subtract_p-IsReduced = record {
    b0 = omega (arith, low51);
    b1 = omega (arith, low51);
    b2 = omega (arith, low51);
    b3 = omega (arith, low51);
    b4 = omega (arith, low51);
  }

  value-subtract_p : value (subtract_p t) ≡ value t % p
  unfolding subtract_p
  value-subtract_p = omega (arith, low51)

module _ (v : Fe) (h : IsTight v) where
  carry_propagate-bounds :
      ((carry_propagate v).l0 < 2 ^ 51)
      × ((carry_propagate v).l1 < 2 ^ 51)
      × ((carry_propagate v).l2 < 2 ^ 51 + 1)
      × ((carry_propagate v).l3 < 2 ^ 51)
      × ((carry_propagate v).l4 < 2 ^ 51)
  unfolding carry_propagate
  carry_propagate-bounds = (
    omega (arith, low51),
    omega (arith, low51),
    omega (arith, low51),
    omega (arith, low51),
    omega (arith, low51),
  )

  pub reduce_canonical-IsReduced : IsReduced (reduce_canonical v)
  unfolding reduce_canonical
  reduce_canonical-IsReduced =
      let (b0, b1, b2, b3, b4) = carry_propagate-bounds in
      subtract_p-IsReduced (carry_propagate v) b0 b1 b2 b3 b4

  -- The reduced limbs stand for the residue itself.
  pub value-reduce_canonical : value (reduce_canonical v) ≡ residue v
  unfolding reduce_canonical residue
  value-reduce_canonical =
      let (b0, b1, b2, b3, b4) = carry_propagate-bounds in
      value-subtract_p (carry_propagate v) b0 b1 b2 b3 b4
      ∙ ap (λ (x : ℕ). x % p) (value-carry_propagate v h)
