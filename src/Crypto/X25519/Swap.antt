-- ===== src/Crypto/X25519/Swap.antt =====
-- crates/akurai-crypto/src/x25519.rs: `cswap` and the bits of the scalar.
use akur_ai_vpn.Base.{ℕ, ◌-◌, ◌^◌, ◌<◌, ◌≡◌, ap, ◌∙◌, arith, bit_and, bit_xor}
use akur_ai_vpn.Base.Bits.{bit_and-zero}
use akur_ai_vpn.Base.Exclusive.{bit_xor-zero, bit_xor-lt, bit_xor_other, bit_xor_first}
use akur_ai_vpn.Base.Joins.{bit_and_comm}
use akur_ai_vpn.Base.Masks.{bit_and-low}
use akur_ai_vpn.Crypto.Field25519.Reduction.{IsTight}
use akur_ai_vpn.Crypto.Field25519.{Fe}
use akur_ai_vpn.Crypto.X25519.{cswap, swap_first, swap_second}

swap_first-zero : (a b : ℕ) → swap_first 0 a b ≡ a
swap_first-zero a b = rw (bit_and_comm 0 (bit_xor a b), bit_and-zero, bit_xor-zero)

swap_second-zero : (a b : ℕ) → swap_second 0 a b ≡ b
swap_second-zero a b = rw (bit_and_comm 0 (bit_xor a b), bit_and-zero, bit_xor-zero)

full_mask : (x : ℕ) → x < 2 ^ 64 → bit_and (2 ^ 64 - 1) x ≡ x
full_mask x h = bit_and_comm (2 ^ 64 - 1) x ∙ bit_and-low 64 x ∙ omega arith

swap_first-one : (a b : ℕ) → a < 2 ^ 64 → b < 2 ^ 64 → swap_first 1 a b ≡ b
swap_first-one a b h g =
    ap (bit_xor a) (full_mask (bit_xor a b) (bit_xor-lt 64 a b h g)) ∙ bit_xor_other a b

swap_second-one : (a b : ℕ) → a < 2 ^ 64 → b < 2 ^ 64 → swap_second 1 a b ≡ a
swap_second-one a b h g =
    ap (bit_xor b) (full_mask (bit_xor a b) (bit_xor-lt 64 a b h g)) ∙ bit_xor_first a b

pub cswap-zero : (a b : Fe) → cswap 0 a b ≡ (a, b)
unfolding cswap
cswap-zero a b = simp (swap_first-zero, swap_second-zero)

pub cswap-one : (a b : Fe) → IsTight a → IsTight b → cswap 1 a b ≡ (b, a)
unfolding cswap
cswap-one a b h g = rw (
  swap_first-one a.l0 b.l0 (omega (arith, h.b0)) (omega (arith, g.b0)),
  swap_first-one a.l1 b.l1 (omega (arith, h.b1)) (omega (arith, g.b1)),
  swap_first-one a.l2 b.l2 (omega (arith, h.b2)) (omega (arith, g.b2)),
  swap_first-one a.l3 b.l3 (omega (arith, h.b3)) (omega (arith, g.b3)),
  swap_first-one a.l4 b.l4 (omega (arith, h.b4)) (omega (arith, g.b4)),
  swap_second-one a.l0 b.l0 (omega (arith, h.b0)) (omega (arith, g.b0)),
  swap_second-one a.l1 b.l1 (omega (arith, h.b1)) (omega (arith, g.b1)),
  swap_second-one a.l2 b.l2 (omega (arith, h.b2)) (omega (arith, g.b2)),
  swap_second-one a.l3 b.l3 (omega (arith, h.b3)) (omega (arith, g.b3)),
  swap_second-one a.l4 b.l4 (omega (arith, h.b4)) (omega (arith, g.b4)),
)
